-- ===== src/Proxy/Handler/Tests.antt =====
-- src/proxy/handler.rs over headers that are kept in lists.
use mathlib.Core.List.{Memᴰ}
use blahaj.Prelude.{
  true, false, ◌⊎◌, inr, ok, List, [], ◌∷◌, ◌≡◌, ap, Option, none, some, arith, inl, if◌then◌else◌,
}
use blahaj.Prelude.Text.{Str, codes}
use blahaj.Text.{str_eq}
use blahaj.Text.{trim, trim_start}
use blahaj.Config.{HttpRelay}
use blahaj.Proxy.{new, key_of}
use blahaj.Proxy.Ancestors.{IsAncestor}
use blahaj.Proxy.Handler.Served.{forward_unserved}
use blahaj.Proxy.Handler.{ClientResponse, forward, HttpRequest, copy_headers}
use blahaj.Proxy.Handler.Samples.{builders, clients, plain}
use blahaj.Proxy.Handler.Headers.{copy_headers-last}

abbrev incoming : HttpRequest Str
incoming = record {
  uri = codes "/a";
  scheme = codes "http";
  host = codes "h";
  version = codes "HTTP/1.1";
  peer_addr = some (codes "10.0.0.7");
  header = λ name.
      if str_eq name (codes "x-forwarded-for") then some (some (codes "10.0.0.1")) else none;
}

-- Two cookies are set, and the first is lost.
abbrev cookie : Str
cookie = codes "set-cookie"

copy_headers-last_example :
    builders.values cookie (
      copy_headers builders
        ((cookie, codes "a=1") ∷ (cookie, codes "b=2") ∷ [])
        (builders.build 200))
    ≡ codes "b=2" ∷ []
copy_headers-last_example =
    copy_headers-last builders 200 cookie (codes "b=2") ((cookie, codes "a=1") ∷ []) []
      (λ h. ground (arith, h)) tt

abbrev web : HttpRelay
web = record {
  port = 8080;
  path = codes "/web";
  https = false;
  strip_path = true;
  health_check = none;
}

abbrev outside_request : HttpRequest (Str × Option Str)
outside_request = record {
  uri = (codes "/other", none);
  scheme = codes "http";
  host = codes "h";
  version = codes "HTTP/1.1";
  peer_addr = none;
  header = λ name. none;
}

-- Nothing answers.
abbrev silent : List (Str × Str) → Str → Str ⊎ ClientResponse Str Str
silent request body = inl (codes "refused")

web-outside :
    (relay : HttpRelay) → Memᴰ relay (web ∷ []) → ¬ IsAncestor (key_of relay) (codes "other")
unfolding trim
web-outside relay (Memᴰ.head e) (inl same) = ground (arith, ap key_of e, same)
web-outside relay (Memᴰ.head e) (inr (r, same)) = ground (arith, ap key_of e, same)
web-outside relay (Memᴰ.tail m) above = elim m [ ]

forward_unserved_example :
    forward builders plain
      (λ u. u.0)
      clients
      silent
      (new (web ∷ []) (record { ip = codes "0.0.0.0"; port = 8000 }))
      outside_request
      (codes "body")
    ≡ ok (inr (record { builder = builders.build 404; body = none }))
unfolding trim_start
forward_unserved_example =
    forward_unserved builders plain (λ u. u.0) clients silent (web ∷ [])
      (record { ip = codes "0.0.0.0"; port = 8000 }) outside_request (codes "body") web-outside
