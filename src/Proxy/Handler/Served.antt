-- ===== src/Proxy/Handler/Served.antt =====
-- What the handler of src/proxy/handler.rs answers to a request, from the table of src/proxy/mod.rs.
use mathlib.Core.List.{Memᴰ}
use mathlib.Core.List.Memᴰ
use blahaj.Prelude.{
  List, [], ◌∷◌, ◌++◌, ◌≡◌, refl, sym, subst, ◌∙◌, ap, none, some, ok, ◌⊎◌, inl, inr, map,
  if◌then◌else◌, Option-cases, arith, length, ◌≤◌,
}
use blahaj.Prelude.Text.{Str}
use blahaj.Text.{trim_start}
use blahaj.Map.Laws.{mem-collect}
use blahaj.Config.{HttpRelay, SocketAddr}
use blahaj.Proxy.{
  slash, ProxyEntry, ProxyConfig, entry_from, key_of, keyed, new, route, with_query, authority_text,
  http, https, UriApi, upstream_uri, get,
}
use blahaj.Proxy.Ancestors.{IsAncestor}
use blahaj.Proxy.Routing.{route_iff, DistinctPaths}
use blahaj.Proxy.Forwarding.{get_relay}
use blahaj.Proxy.Handler.{
  HttpRequest, ClientApi, BuilderApi, ClientResponse, upstream_req, copy_headers, give_back,
  forward, not_found,
}

module _ (api : BuilderApi) {Body : Type 0} (uris : UriApi) (to_string : uris.Uri → Str)
    (client : ClientApi uris.Uri)
    (send_body : client.ClientRequest → Body → Str ⊎ ClientResponse api.Value Body) where
  open uris use {
    Uri, path, query, Authority, PathAndQuery, authority_from, path_and_query_from, build,
  }

  forward_of_get :
      (config : ProxyConfig) (req : HttpRequest Uri) (body : Body) (upstream : Uri)
      → get uris config req.uri ≡ ok (some upstream)
      → forward api uris to_string client send_body config req body
        ≡ ok (
            give_back api
              (send_body (upstream_req client (to_string upstream) config.interface req) body))
  unfolding forward
  forward_of_get config req body upstream found = rw (found) refl

  forward_of_none :
      (config : ProxyConfig) (req : HttpRequest Uri) (body : Body)
      → get uris config req.uri ≡ ok none
      → forward api uris to_string client send_body config req body
        ≡ ok (inr (record { builder = api.build not_found; body = none }))
  unfolding forward
  forward_of_none config req body found = rw (found) refl

  get_of_unrouted :
      (config : ProxyConfig) (uri : Uri)
      → route config (path uri) ≡ none
      → get uris config uri ≡ ok none
  unfolding get
  get_of_unrouted config uri e = rw (e, get)

  upstream_uri-some :
      (entry : ProxyEntry) (text : Str) (path_query : PathAndQuery) (authority : Authority)
      (upstream : Uri)
      → path_and_query_from text ≡ some path_query
      → authority_from (authority_text entry.port) ≡ some authority
      → build (if entry.secure then https else http) authority path_query ≡ some upstream
      → upstream_uri uris entry text ≡ ok (some upstream)
  unfolding upstream_uri
  upstream_uri-some entry text path_query authority upstream text_legal port_legal built =
      ground (arith, text_legal, port_legal, built)

  give_back-whole :
      (response : ClientResponse api.Value Body) (bytes : Body)
      → response.body ≡ inr bytes
      → give_back api (inr response)
        ≡ inr (record {
          builder = copy_headers api response.headers (api.build response.status);
          body = some bytes;
        })
  unfolding give_back
  give_back-whole response bytes whole = rw (whole) refl

  -- The table has no entry above the path of a request that is below no relay's path.
  route_unserved :
      (relays : List HttpRelay) (bind : SocketAddr) (asked : Str)
      → ((relay : HttpRelay)
          → Memᴰ relay relays
          → ¬ IsAncestor (key_of relay) (trim_start slash asked))
      → route (new relays bind) asked ≡ none
  unfolding new
  route_unserved relays bind asked outside = elim (Option-cases (route (new relays bind) asked)) [
    | inl e ↦ e
    | inr ((key, entry), e) ↦
        let place = (route_iff (new relays bind) asked key entry).0 e in
        let (relay, listed, same) =
          Memᴰ.of_map keyed relays (mem-collect key entry (map keyed relays) place.found) in
        absurd (
          outside relay listed (
            subst (λ k. IsAncestor k (trim_start slash asked)) (sym (ap (λ p. p.0) same))
              place.ancestor))
  ]

  -- A request whose path is at or below no relay's trimmed path is answered with 404, and nothing
  -- is sent upstream.
  pub forward_unserved :
      (relays : List HttpRelay) (bind : SocketAddr) (req : HttpRequest Uri) (body : Body)
      → ((relay : HttpRelay)
          → Memᴰ relay relays
          → ¬ IsAncestor (key_of relay) (trim_start slash (path req.uri)))
      → forward api uris to_string client send_body (new relays bind) req body
        ≡ ok (inr (record { builder = api.build not_found; body = none }))
  forward_unserved relays bind req body outside = forward_of_none (new relays bind) req body (
      get_of_unrouted (new relays bind) req.uri (route_unserved relays bind (path req.uri) outside))

  -- A request at or below a relay's trimmed path (and below no other relay's that is longer), where
  -- the texts of the upstream's Uri are legal: what is answered is the status, the copied headers
  -- and the body of the upstream's answer to the handler's request at the relay's port, scheme and
  -- path.
  pub forward_served :
      (relays : List HttpRelay) (bind : SocketAddr) (relay : HttpRelay) (req : HttpRequest Uri)
      (body bytes : Body) (rest : Str) (path_query : PathAndQuery) (authority : Authority)
      (upstream : Uri) (response : ClientResponse api.Value Body)
      → DistinctPaths relays
      → Memᴰ relay relays
      → path req.uri ≡ slash ∷ (key_of relay ++ rest)
      → trim_start slash (key_of relay ++ rest) ≡ key_of relay ++ rest
      → IsAncestor (key_of relay) (key_of relay ++ rest)
      → ((other : HttpRelay)
          → Memᴰ other relays
          → IsAncestor (key_of other) (key_of relay ++ rest)
          → length (key_of other) ≤ length (key_of relay))
      → path_and_query_from (
          with_query
            (slash ∷ ((if relay.strip_path then [] else relay.path) ++ trim_start slash rest))
            (query req.uri))
        ≡ some path_query
      → authority_from (authority_text relay.port) ≡ some authority
      → build (if relay.https then https else http) authority path_query ≡ some upstream
      → send_body (upstream_req client (to_string upstream) bind.ip req) body ≡ inr response
      → response.body ≡ inr bytes
      → forward api uris to_string client send_body (new relays bind) req body
        ≡ ok (
            inr (record {
              builder = copy_headers api response.headers (api.build response.status);
              body = some bytes;
            }))
  unfolding new entry_from
  forward_served relays bind relay req body bytes rest path_query authority upstream response
        distinct listed at plain below longest text_legal port_legal built answered whole =
      let found =
        get_relay uris relays bind relay req.uri rest distinct listed at plain below longest
        ∙ upstream_uri-some (entry_from relay) _ path_query authority upstream text_legal port_legal
            built in
      forward_of_get (new relays bind) req body upstream found
      ∙ ap (λ r. ok (give_back api r)) answered
      ∙ ap ok (give_back-whole response bytes whole)
