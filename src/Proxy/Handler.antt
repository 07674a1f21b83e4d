-- ===== src/Proxy/Handler.antt =====
-- src/proxy/handler.rs: what is sent to an upstream and what is given back. The crates `actix_web`
-- and `awc` are parameters: the request that came, the client's request, and the answer's builder.
pub mod Headers
pub mod Served
pub mod Samples
mod Tests
use blahaj.Prelude.{
  ℕ, List, [], ◌∷◌, ◌++◌, Bool, false, not, ◌||◌, if◌then◌else◌, ◌≡◌, ◌≢◌, Option, none, some,
  Outcome, ok, ◌>>=◌, ◌⊎◌, inl, inr,
}
use mathlib.Core.Option
use blahaj.Prelude.Text.{Str, codes}
use blahaj.Text.{str_eq}
use blahaj.Error.{HttpError}
use blahaj.Proxy.{UriApi, ProxyConfig, get}
use blahaj.Proxy.Forwarded.{from_info, display}

-- What the code reads of a request and its connection. `header` is the first value under a name,
-- and `some none` where that is no text; `version` is printed with `{:?}`.
pub record HttpRequest (Uri : Type 0) : Type 0 where
  pub uri : Uri
  pub scheme : Str
  pub host : Str
  pub version : Str
  pub peer_addr : Option Str
  pub header : Str → Option (Option Str)

-- A request of the crate `awc`; `header` is the value that it would send under a name.
pub record ClientApi (Uri : Type 0) : Type 1 where
  pub ClientRequest : Type 0
  pub request_from : Str → HttpRequest Uri → ClientRequest
  pub no_decompress : ClientRequest → ClientRequest
  pub insert_header : Str → Str → ClientRequest → ClientRequest
  pub header : Str → ClientRequest → Option Str
  pub IsLegal : Str → Type 0
  pub header-no_decompress :
      (name : Str) (r : ClientRequest) → header name (no_decompress r) ≡ header name r
  pub header-insert_same :
      (name value : Str) (r : ClientRequest)
      → IsLegal value
      → header name (insert_header name value r) ≡ some value
  pub header-insert_other :
      (name other value : Str) (r : ClientRequest)
      → other ≢ name
      → header other (insert_header name value r) ≡ header other r

-- A builder of the crate `actix_web`; `values` is all that it would send under a name.
pub record BuilderApi : Type 1 where
  pub Value : Type 0
  pub Builder : Type 0
  pub build : ℕ → Builder
  pub insert_header : Str → Value → Builder → Builder
  pub values : Str → Builder → List Value
  pub values-build : (code : ℕ) (name : Str) → values name (build code) ≡ []
  pub values-insert_same :
      (name : Str) (v : Value) (b : Builder) → values name (insert_header name v b) ≡ v ∷ []
  pub values-insert_other :
      (name other : Str) (v : Value) (b : Builder)
      → other ≢ name
      → values other (insert_header name v b) ≡ values other b

abbrev pub unwrap_or_empty : Option Str → Str
unwrap_or_empty none = []
unwrap_or_empty (some text) = text

module _ {Uri : Type 0} where
  -- The text of a header, empty where it is no text.
  abbrev pub text_of : Str → HttpRequest Uri → Option Str
  text_of name req = Option.map unwrap_or_empty (req.header name)

  unfoldable pub peer : HttpRequest Uri → Str
  peer req = elim req.peer_addr [ none ↦ codes "unknown" | some ip ↦ ip ]

  unfoldable pub forwarded : Str → HttpRequest Uri → Str
  unfolding peer
  forwarded interface req = display (
      from_info (peer req) interface (unwrap_or_empty (text_of (codes "forwarded") req)) req.host
        req.scheme)

  unfoldable pub via : HttpRequest Uri → Str
  via req = elim (text_of (codes "via") req) [
    | none ↦ req.version ++ codes " blahaj"
    | some previous ↦ previous ++ (codes ", " ++ (req.version ++ codes " blahaj"))
  ]

  unfoldable pub x_forwarded_for : HttpRequest Uri → Str
  unfolding peer
  x_forwarded_for req = elim (text_of (codes "x-forwarded-for") req) [
    | none ↦ peer req
    | some previous ↦ previous ++ (codes ", " ++ peer req)
  ]

  -- The request to the upstream.
  unfoldable pub upstream_req :
      (client : ClientApi Uri) → Str → Str → HttpRequest Uri → client.ClientRequest
  upstream_req client upstream interface req =
      let r0 = client.no_decompress (client.request_from upstream req) in
      let r1 = client.insert_header (codes "forwarded") (forwarded interface req) r0 in
      let r2 = client.insert_header (codes "x-forwarded-proto") req.scheme r1 in
      let r3 = client.insert_header (codes "x-forwarded-host") req.host r2 in
      let r4 = client.insert_header (codes "x-forwarded-for") (x_forwarded_for req) r3 in
      client.insert_header (codes "via") (via req) r4

-- The headers of an upstream's answer that are not given back.
unfoldable pub is_hop_by_hop : Str → Bool
is_hop_by_hop name = str_eq name (codes "connection") || str_eq name (codes "transfer-encoding")

-- What an upstream answers: its status, its headers in order and its body, whose reading may fail.
pub record ClientResponse (Value Body : Type 0) : Type 0 where
  pub status : ℕ
  pub headers : List (Str × Value)
  pub body : Str ⊎ Body

abbrev pub not_found : ℕ
not_found = 404

module _ (api : BuilderApi) where
  open api use {Value, Builder, build, insert_header}

  -- The loop over the answer's headers.
  unfoldable pub copy_headers : List (Str × Value) → Builder → Builder
  unfolding is_hop_by_hop
  copy_headers [] b = b
  copy_headers ((name, v) ∷ rest) b =
      copy_headers rest (if not (is_hop_by_hop name) then insert_header name v b else b)

  -- An answer: its builder, and its body, if it has one.
  pub record HttpResponse (Body : Type 0) : Type 0 where
    pub builder : Builder
    pub body : Option Body

  -- From what sending the request gave.
  unfoldable pub give_back :
      {Body : Type 0} → Str ⊎ ClientResponse Value Body → HttpError ⊎ HttpResponse Body
  unfolding copy_headers
  give_back (inl e) = inl (HttpError.send e)
  give_back (inr response) = elim response.body [
    | inl e ↦ inl (HttpError.receive e)
    | inr bytes ↦ inr (record {
      builder = copy_headers response.headers (build response.status);
      body = some bytes;
    })
  ]

  -- `send_body` is what sending a request with a body gives.
  unfoldable pub forward :
      {Body : Type 0} (uris : UriApi) (to_string : uris.Uri → Str) (client : ClientApi uris.Uri)
      → (client.ClientRequest → Body → Str ⊎ ClientResponse Value Body)
      → ProxyConfig
      → HttpRequest uris.Uri
      → Body
      → Outcome (HttpError ⊎ HttpResponse Body)
  unfolding give_back
  forward uris to_string client send_body config req body = do
    found ← get uris config req.uri
    ok (elim found [
      | none ↦ inr (record { builder = build not_found; body = none })
      | some upstream ↦
          give_back (send_body (upstream_req client (to_string upstream) config.interface req) body)
    ])
