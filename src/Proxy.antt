-- ===== src/Proxy.antt =====
-- src/proxy/mod.rs: the table of upstreams and the choice of one for a request. The crate `http`
-- is a parameter: its `Uri`, how one is read and how one is built.
pub mod Ancestors
pub mod Routing
pub mod Forwarding
pub mod Forwarded
pub mod Handler
mod Tests
use blahaj.Prelude.{
  ℕ, zero, suc, List, [], ◌∷◌, ◌++◌, Bool, Option, none, some, Outcome, ok, panic, expect, ◌>>=◌,
  if◌then◌else◌, length, map,
}
use mathlib.Core.Option
use blahaj.Prelude.Text.{Str, codes}
use blahaj.Text.{trim, trim_start, strip_prefix, rsplit_once, show_u16}
use blahaj.Map
use blahaj.Config.{HttpRelay, SocketAddr}

abbrev pub slash : ℕ
slash = b'/'

pub record ProxyEntry : Type 0 where
  pub port : ℕ
  pub secure : Bool
  pub prefix_path : Str

-- `ProxyEntry::from`.
unfoldable pub entry_from : HttpRelay → ProxyEntry
entry_from relay = record {
  port = relay.port;
  secure = relay.https;
  prefix_path = if relay.strip_path then [] else relay.path;
}

pub record ProxyConfig : Type 0 where
  pub map : List (Str × ProxyEntry)
  pub interface : Str

-- The key of a relay in the table.
abbrev pub key_of : HttpRelay → Str
key_of relay = trim slash relay.path

abbrev pub keyed : HttpRelay → Str × ProxyEntry
keyed relay = (key_of relay, entry_from relay)

unfoldable pub new : List HttpRelay → SocketAddr → ProxyConfig
new relays bind = record { map = Map.collect (map keyed relays); interface = bind.ip }

-- Each step drops the last segment, so the length of the path is fuel enough.
successors : ℕ → Str → List Str
successors zero path = path ∷ []
successors (suc f) path =
    path ∷ elim (rsplit_once slash path) [ some (parent, _) ↦ successors f parent | none ↦ [] ]

unfoldable pub ancestors : Str → List Str
unfolding successors
ancestors path = successors (length path) path

-- `Iterator::find_map`.
unfoldable pub find_map {ℓ κ} : {A : Type ℓ} {B : Type κ} → (A → Option B) → List A → Option B
find_map f [] = none
find_map f (x ∷ xs) = elim (f x) [ some y ↦ some y | none ↦ find_map f xs ]

-- The longest ancestor of the request's path that the table has, with its entry.
unfoldable pub route : ProxyConfig → Str → Option (Str × ProxyEntry)
route config path =
    find_map (λ key. Option.map (λ (entry : ProxyEntry). (key, entry)) (Map.lookup key config.map))
      (ancestors (trim_start slash path))

-- The path sent upstream: the entry's prefix, then what follows the matched key.
unfoldable pub upstream_path : ProxyEntry → Str → Str → Option Str
upstream_path entry matched path =
    Option.map (λ (rest : Str). slash ∷ (entry.prefix_path ++ trim_start slash rest))
      (strip_prefix (slash ∷ matched) path)

abbrev pub with_query : Str → Option Str → Str
with_query path none = path
with_query path (some query) = path ++ b'?' ∷ query

unfoldable pub authority_text : ℕ → Str
authority_text port = codes "127.0.0.1:" ++ show_u16 port

pub data Scheme : Type 0 where
  http https : Scheme

-- What the code uses of the crate `http`.
pub record UriApi : Type 1 where
  pub Uri : Type 0
  pub Authority : Type 0
  pub PathAndQuery : Type 0
  pub path : Uri → Str
  pub query : Uri → Option Str
  pub authority_from : Str → Option Authority
  pub path_and_query_from : Str → Option PathAndQuery
  pub build : Scheme → Authority → PathAndQuery → Option Uri

module _ (api : UriApi) where
  open api use {Uri, path, query, authority_from, path_and_query_from, build}

  -- The Uri of an upstream for a path and query.
  unfoldable pub upstream_uri : ProxyEntry → Str → Outcome (Option Uri)
  upstream_uri entry text = elim (path_and_query_from text) [
    | none ↦ ok none
    | some path_query ↦ elim (authority_from (authority_text entry.port)) [
      | none ↦ ok none
      | some authority ↦ do
        uri ← expect (build (if entry.secure then https else http) authority path_query)
        ok (some uri)
    ]
  ]

  unfoldable pub get : ProxyConfig → Uri → Outcome (Option Uri)
  get config incoming_req = elim (route config (path incoming_req)) [
    | none ↦ ok none
    | some (matched, entry) ↦ elim (upstream_path entry matched (path incoming_req)) [
      | none ↦ ok none
      | some text ↦ upstream_uri entry (with_query text (query incoming_req))
    ]
  ]
