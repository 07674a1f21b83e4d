-- ===== src/Main/Serving.antt =====
-- What the programs of a configuration are served by, as src/main.rs puts the parts together.
use mathlib.Core.List.{Memᴰ}
use blahaj.Prelude.{
  List, [], ◌∷◌, ◌++◌, ◌≡◌, refl, sym, ◌∙◌, ap, subst, none, some, ok, ◌⊎◌, inl, inr, if◌then◌else◌,
  Option-cases, length, ◌≤◌,
}
use blahaj.Prelude.Text.{Str}
use blahaj.Text.{trim_start}
use blahaj.Config.{Config, Program, HttpRelay}
use blahaj.Proxy.{slash, key_of, with_query, authority_text, http, https, UriApi}
use blahaj.Proxy.Ancestors.{IsAncestor}
use blahaj.Proxy.Routing.{DistinctPaths}
use blahaj.Proxy.Handler.{
  HttpRequest, ClientApi, BuilderApi, ClientResponse, upstream_req, copy_headers, forward,
}
use blahaj.Proxy.Handler.Served.{forward_served}
use blahaj.Main.{relays_of, proxy_config}

relays_of-cons :
    (name : Str) (program : Program) (relay : HttpRelay) (programs : List (Str × Program))
    → program.http ≡ some relay
    → relays_of ((name, program) ∷ programs) ≡ relay ∷ relays_of programs
unfolding relays_of
relays_of-cons name program relay programs e = rw (e) refl

relays_of-skip :
    (name : Str) (program : Program) (programs : List (Str × Program))
    → program.http ≡ none
    → relays_of ((name, program) ∷ programs) ≡ relays_of programs
unfolding relays_of
relays_of-skip name program programs e = rw (e) refl

-- The relay of a program is among those that the table is made of.
mem-relays_of :
    (name : Str) (program : Program) (relay : HttpRelay) (programs : List (Str × Program))
    → Memᴰ (name, program) programs
    → program.http ≡ some relay
    → Memᴰ relay (relays_of programs)
mem-relays_of name program relay [] m e = elim m [ ]
mem-relays_of name program relay ((n, p) ∷ programs) (Memᴰ.head same) e =
    let at : p.http ≡ some relay = sym (ap (λ q. q.1.http) same) ∙ e in
    subst (Memᴰ relay) (sym (relays_of-cons n p relay programs at)) (Memᴰ.head refl)
mem-relays_of name program relay ((n, p) ∷ programs) (Memᴰ.tail m) e =
    let rest = mem-relays_of name program relay programs m e in
    elim (Option-cases p.http) [
      | inl absent ↦ subst (Memᴰ relay) (sym (relays_of-skip n p programs absent)) rest
      | inr (other, at) ↦
          subst (Memᴰ relay) (sym (relays_of-cons n p other programs at)) (Memᴰ.tail rest)
    ]

module _ (api : BuilderApi) {Body : Type 0} (uris : UriApi) (to_string : uris.Uri → Str)
    (client : ClientApi uris.Uri)
    (send_body : client.ClientRequest → Body → Str ⊎ ClientResponse api.Value Body) where
  open uris use {
    Uri, path, query, Authority, PathAndQuery, authority_from, path_and_query_from, build,
  }

  -- A program of the configuration that has a relay, where no two relays have one trimmed path: a
  -- request at or below the relay's trimmed path (and below no other relay's that is longer) is
  -- answered with the status, the copied headers and the body of what the upstream answers, which
  -- is asked at the relay's port, with its scheme, its path (nothing, if it is stripped) and what
  -- follows the trimmed path; where the texts of the Uri are legal and the upstream answers.
  pub program_served :
      (config : Config) (name : Str) (program : Program) (relay : HttpRelay) (req : HttpRequest Uri)
      (body bytes : Body) (rest : Str) (path_query : PathAndQuery) (authority : Authority)
      (upstream : Uri) (response : ClientResponse api.Value Body)
      → DistinctPaths (relays_of config.programs)
      → Memᴰ (name, program) config.programs
      → program.http ≡ some relay
      → path req.uri ≡ slash ∷ (key_of relay ++ rest)
      → trim_start slash (key_of relay ++ rest) ≡ key_of relay ++ rest
      → IsAncestor (key_of relay) (key_of relay ++ rest)
      → ((other : HttpRelay)
          → Memᴰ other (relays_of config.programs)
          → IsAncestor (key_of other) (key_of relay ++ rest)
          → length (key_of other) ≤ length (key_of relay))
      → path_and_query_from (
          with_query
            (slash ∷ ((if relay.strip_path then [] else relay.path) ++ trim_start slash rest))
            (query req.uri))
        ≡ some path_query
      → authority_from (authority_text relay.port) ≡ some authority
      → build (if relay.https then https else http) authority path_query ≡ some upstream
      → send_body (upstream_req client (to_string upstream) config.bind.ip req) body ≡ inr response
      → response.body ≡ inr bytes
      → forward api uris to_string client send_body (proxy_config config) req body
        ≡ ok (
            inr (record {
              builder = copy_headers api response.headers (api.build response.status);
              body = some bytes;
            }))
  unfolding proxy_config
  program_served config name program relay req body bytes rest path_query authority upstream
        response distinct listed has at plain below longest text_legal port_legal built answered
        whole =
      forward_served api uris to_string client send_body (relays_of config.programs) config.bind
        relay req body bytes rest path_query authority upstream response distinct
        (mem-relays_of name program relay config.programs listed has) at plain below longest
        text_legal port_legal built answered whole
