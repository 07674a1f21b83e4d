-- ===== src/Proxy/Forwarding.antt =====
-- What `ProxyConfig::get` of src/proxy/mod.rs sends upstream for a request.
use mathlib.Core.List.{Memᴰ, append_cancel_right}
use mathlib.Core.List.Memᴰ
use mathlib.Core.Option.{some-injective}
use blahaj.Prelude.{
  ℕ, ◌≤◌, List, [], ◌∷◌, ◌++◌, ◌≡◌, ◌≢◌, ap, sym, ◌∙◌, subst, false, none, some, ok, panic,
  if◌then◌else◌, ◌==◌, refl, inl, inr, ◌↔◌, length, arith, Option-cases, map, append_assoc,
}
use blahaj.Prelude.Text.{Str}
use blahaj.Text.{trim_start, strip_prefix}
use blahaj.Text.Laws.{strip_prefix-append, strip_prefix_sound, trim_start-ne-cons, trim_start_self}
use blahaj.Map
use blahaj.Map.Laws.{lookup-collect_iff}
use blahaj.Config.{HttpRelay, SocketAddr}
use blahaj.Proxy.{
  slash, ProxyEntry, ProxyConfig, entry_from, key_of, keyed, new, route, upstream_path, with_query,
  authority_text, Scheme, http, https, UriApi, upstream_uri, get,
}
use blahaj.Proxy.Ancestors.{IsAncestor}
use blahaj.Proxy.Routing.{IsLongest, route_iff, DistinctPaths}

upstream_path-append :
    (entry : ProxyEntry) (key rest : Str)
    → upstream_path entry key (slash ∷ (key ++ rest))
      ≡ some (slash ∷ (entry.prefix_path ++ trim_start slash rest))
unfolding upstream_path
upstream_path-append entry key rest = rw (strip_prefix-append (slash ∷ key) rest)

prefix_path-kept :
    (relay : HttpRelay) → relay.strip_path ≡ false → (entry_from relay).prefix_path ≡ relay.path
unfolding entry_from
prefix_path-kept relay keeps = rw keeps

tail_inj : {c : ℕ} {s t : Str} → ◌≡◌ {A = Str} (c ∷ s) (c ∷ t) → s ≡ t
tail_inj e = cc

head_inj : {c d : ℕ} {s t : Str} → ◌≡◌ {A = Str} (c ∷ s) (d ∷ t) → c ≡ d
head_inj e = cc

-- The characters `c` that a text begins with.
abbrev pub leading : ℕ → Str → Str
leading c [] = []
leading c (x ∷ s) = let rest = leading c s in if x == c then x ∷ rest else []

leading-trim_start : (c : ℕ) (s : Str) → leading c s ++ trim_start c s ≡ s
unfolding trim_start
leading-trim_start c [] = refl
leading-trim_start c (x ∷ s) = ground (arith, leading-trim_start c s)

-- For a relay that keeps its path, and a request below it: the request's path reaches the upstream
-- unchanged exactly when the relay's path is configured with no slash before it, and with as many at
-- its end as follow the trimmed path in the request. Otherwise the path changes.
pub unstripped_faithful_iff :
    (relay : HttpRelay) (r : Str)
    → relay.strip_path ≡ false
    → let path = slash ∷ (key_of relay ++ slash ∷ r) in
      (upstream_path (entry_from relay) (key_of relay) path ≡ some path)
      ↔ (relay.path ≡ key_of relay ++ slash ∷ leading slash r)
unstripped_faithful_iff relay r keeps =
    let key = key_of relay in
    let rest = trim_start slash r in
    let whole : key ++ slash ∷ r ≡ (key ++ slash ∷ leading slash r) ++ rest =
      ap (λ (t : Str). key ++ slash ∷ t) (sym (leading-trim_start slash r))
      ∙ sym (append_assoc key (slash ∷ leading slash r) rest) in
    let sent : upstream_path (entry_from relay) key (slash ∷ (key ++ slash ∷ r))
        ≡ some (slash ∷ (relay.path ++ rest)) =
      upstream_path-append (entry_from relay) key (slash ∷ r)
      ∙ ap (λ (p : Str). some (slash ∷ (p ++ trim_start slash (slash ∷ r))))
          (prefix_path-kept relay keeps)
      ∙ ap (λ (t : Str). some (slash ∷ (relay.path ++ t))) (trim_start_self slash r) in
    (
      λ h.
          append_cancel_right relay.path (key ++ slash ∷ leading slash r) rest
            (tail_inj (some-injective _ _ (sym sent ∙ h)) ∙ whole),
      λ e. sent ∙ ap (λ (t : Str). some (slash ∷ t)) (ap (λ (t : Str). t ++ rest) e ∙ sym whole),
    )

-- The entry of a relay with the longest key above a path is the one for the path.
new-IsLongest :
    (relays : List HttpRelay) (bind : SocketAddr) (relay : HttpRelay) (path trimmed : Str)
    → DistinctPaths relays
    → Memᴰ relay relays
    → trim_start slash path ≡ trimmed
    → IsAncestor (key_of relay) trimmed
    → ((other : HttpRelay)
        → Memᴰ other relays
        → IsAncestor (key_of other) trimmed
        → length (key_of other) ≤ length (key_of relay))
    → IsLongest (new relays bind) path (key_of relay) (entry_from relay)
unfolding new
new-IsLongest relays bind relay path trimmed distinct listed same below longest = record {
  ancestor = rw same below;
  found =
      (lookup-collect_iff (key_of relay) (entry_from relay) (map keyed relays) distinct).1
        (Memᴰ.map keyed listed);
  longest = λ q above lt. elim (Option-cases (Map.lookup q (Map.collect (map keyed relays)))) [
    | inl e ↦ e
    | inr (v, e) ↦
        let (other, other_listed, keys) =
          Memᴰ.of_map keyed relays ((lookup-collect_iff q v (map keyed relays) distinct).0 e) in
        let same_key : key_of other ≡ q = ap (λ p. p.0) keys in
        absurd (
          omega (
            arith,
            longest other other_listed
                (subst (λ k. IsAncestor k trimmed) (sym same_key) (rw same at above)),
            ap length same_key,
          ))
  ];
}

-- A key above a path without leading slashes does not begin with a slash, nor is it empty.
key-ne-slash :
    (key q t : Str)
    → IsAncestor key (trim_start slash q)
    → trim_start slash q ≢ []
    → (rest : Str) → key ++ rest ≢ slash ∷ t
key-ne-slash [] q t (inl e) ne rest h = ne (sym e)
key-ne-slash [] q t (inr (r, e)) ne rest h = trim_start-ne-cons slash q r e
key-ne-slash (x ∷ key) q t (inl e) ne rest h =
    trim_start-ne-cons slash q key (sym e ∙ ap (λ (y : ℕ). y ∷ key) (head_inj h))
key-ne-slash (x ∷ key) q t (inr (r, e)) ne rest h =
    trim_start-ne-cons slash q (key ++ slash ∷ r)
      (e ∙ ap (λ (y : ℕ). y ∷ (key ++ slash ∷ r)) (head_inj h))

upstream_path-none :
    (entry : ProxyEntry) (key t : Str)
    → ((rest : Str) → key ++ rest ≢ t)
    → upstream_path entry key (slash ∷ t) ≡ none
unfolding upstream_path
upstream_path-none entry key t h = elim (Option-cases (strip_prefix (slash ∷ key) (slash ∷ t))) [
  | inl e ↦ rw e
  | inr (rest, e) ↦
      absurd (h rest (sym (tail_inj (strip_prefix_sound (slash ∷ key) (slash ∷ t) rest e))))
]

module _ (api : UriApi) where
  open api use {
    Uri, path, query, Authority, PathAndQuery, authority_from, path_and_query_from, build,
  }

  get_of_route :
      (config : ProxyConfig) (uri : Uri) (key rest : Str) (entry : ProxyEntry)
      → path uri ≡ slash ∷ (key ++ rest)
      → route config (path uri) ≡ some (key, entry)
      → get api config uri
        ≡ upstream_uri api entry
            (with_query (slash ∷ (entry.prefix_path ++ trim_start slash rest)) (query uri))
  unfolding get
  get_of_route config uri key rest entry at routed =
      rw (routed, get)
        (rw (ap (upstream_path entry key) at ∙ upstream_path-append entry key rest, get))

  -- A relay among relays with distinct trimmed paths serves the requests at its trimmed path and
  -- below it, but for those at or below another relay's longer path: the upstream is asked for the
  -- relay's path as configured (nothing, if it is stripped) and what follows the trimmed path in
  -- the request, less its leading slashes, with the request's query.
  pub get_relay :
      (relays : List HttpRelay) (bind : SocketAddr) (relay : HttpRelay) (uri : Uri) (rest : Str)
      → DistinctPaths relays
      → Memᴰ relay relays
      → path uri ≡ slash ∷ (key_of relay ++ rest)
      → trim_start slash (key_of relay ++ rest) ≡ key_of relay ++ rest
      → IsAncestor (key_of relay) (key_of relay ++ rest)
      → ((other : HttpRelay)
          → Memᴰ other relays
          → IsAncestor (key_of other) (key_of relay ++ rest)
          → length (key_of other) ≤ length (key_of relay))
      → get api (new relays bind) uri
        ≡ upstream_uri api (entry_from relay) (
            with_query
              (slash ∷ ((if relay.strip_path then [] else relay.path) ++ trim_start slash rest))
              (query uri))
  unfolding entry_from
  get_relay relays bind relay uri rest distinct listed at plain below longest =
      let trimmed : trim_start slash (path uri) ≡ key_of relay ++ rest =
        ap (trim_start slash) at ∙ trim_start_self slash (key_of relay ++ rest) ∙ plain in
      get_of_route (new relays bind) uri (key_of relay) rest (entry_from relay) at (
        (route_iff (new relays bind) (path uri) (key_of relay) (entry_from relay)).1 (
          new-IsLongest relays bind relay (path uri) (key_of relay ++ rest) distinct listed trimmed
            below longest))

  -- A path that begins with two slashes is sent nowhere, unless it is only slashes.
  get_double_slash :
      (config : ProxyConfig) (uri : Uri) (q : Str)
      → path uri ≡ slash ∷ slash ∷ q
      → trim_start slash q ≢ []
      → get api config uri ≡ ok none
  unfolding get
  get_double_slash config uri q at some_name = elim (Option-cases (route config (path uri))) [
    | inl e ↦ rw (e, get)
    | inr (found, e) ↦
        let place = (route_iff config (path uri) found.0 found.1).0 e in
        let above : IsAncestor found.0 (trim_start slash q) =
          subst (IsAncestor found.0)
            (ap (trim_start slash) at ∙ trim_start_self slash (slash ∷ q) ∙ trim_start_self slash q)
            place.ancestor in
        rw (e, get)
          (rw (
            ap (upstream_path found.1 found.0) at
                ∙ upstream_path-none found.1 found.0 (slash ∷ q)
                    (key-ne-slash found.0 q q above some_name),
            get,
          ))
  ]

  upstream_uri_no_panic :
      (entry : ProxyEntry) (text : Str)
      → ((s : Scheme) (a : Authority) (p : PathAndQuery) → build s a p ≢ none)
      → upstream_uri api entry text ≢ panic
  unfolding upstream_uri
  upstream_uri_no_panic entry text builds h = elim (Option-cases (path_and_query_from text)) [
    | inl e ↦ ground arith
    | inr (p, e) ↦ elim (Option-cases (authority_from (authority_text entry.port))) [
      | inl e' ↦ ground arith
      | inr (a, e') ↦ ground (arith, builds (if entry.secure then https else http) a p)
    ]
  ]

  -- A Uri can be built of the three parts, so a request never makes the proxy panic.
  get_no_panic :
      (config : ProxyConfig) (uri : Uri)
      → ((s : Scheme) (a : api.Authority) (p : api.PathAndQuery) → build s a p ≢ none)
      → get api config uri ≢ panic
  unfolding get
  get_no_panic config uri builds h = elim (Option-cases (route config (path uri))) [
    | inl e ↦ ground arith
    | inr (found, e) ↦ elim (Option-cases (upstream_path found.1 found.0 (path uri))) [
      | inl e' ↦ ground arith
      | inr (text, e') ↦
          upstream_uri_no_panic found.1 (with_query text (query uri)) builds (ground arith)
    ]
  ]
