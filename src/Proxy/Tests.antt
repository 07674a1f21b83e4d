-- ===== src/Proxy/Tests.antt =====
-- Requests against a small table of upstreams (src/proxy/mod.rs).
use mathlib.Core.List.{Memᴰ}
use blahaj.Prelude.{
  ◌≡◌, refl, List, [], ◌∷◌, ◌++◌, true, false, Option, none, some, Outcome, ok, ◌↔◌, inr, arith,
  length, ◌≤◌,
}
use blahaj.Prelude.Text.{Str, codes}
use blahaj.Text.{trim, trim_start, strip_prefix, rsplit_once, str_eq, show_u16}
use blahaj.Map.{lookup, collect}
use blahaj.Config.{HttpRelay, SocketAddr}
use blahaj.Proxy.{
  slash, entry_from, key_of, new, ancestors, find_map, route, upstream_path, upstream_uri, get,
  authority_text,
}
use blahaj.Proxy.Handler.Samples.{plain}
use blahaj.Proxy.Ancestors.{IsAncestor}
use blahaj.Proxy.Routing.{IsLongest, route_iff}
use blahaj.Proxy.Forwarding.{leading, unstripped_faithful_iff, get_relay}

abbrev serve : HttpRelay
serve = record {
  port = 8080;
  path = codes "serve";
  https = false;
  strip_path = true;
  health_check = none;
}

abbrev kept : HttpRelay
kept = record {
  port = 9000;
  path = codes "/api/v1/";
  https = true;
  strip_path = false;
  health_check = none;
}

abbrev bind : SocketAddr
bind = record { ip = codes "0.0.0.0"; port = 8000 }

abbrev relays : List HttpRelay
relays = serve ∷ kept ∷ []

ancestors_test : ancestors (codes "a/b/c") ≡ codes "a/b/c" ∷ codes "a/b" ∷ codes "a" ∷ []
unfolding ancestors rsplit_once
ancestors_test = refl

ask : Str → Option Str → Outcome (Option (Str × Option Str))
ask path query = get plain (new relays bind) (path, query)

stripped_test :
    ask (codes "/serve/x/y") (some (codes "q=1")) ≡ ok (some (codes "127.0.0.1:8080/x/y?q=1", none))
unfolding ask get route new find_map ancestors upstream_path upstream_uri collect lookup trim
    strip_prefix trim_start rsplit_once str_eq entry_from authority_text show_u16
stripped_test = refl

-- The relay's own slashes stay: one too many before the path, where one is needed behind it.
kept_test : ask (codes "/api/v1/x") none ≡ ok (some (codes "127.0.0.1:9000//api/v1/x", none))
unfolding ask get route new find_map ancestors upstream_path upstream_uri collect lookup trim
    strip_prefix trim_start rsplit_once str_eq entry_from authority_text show_u16
kept_test = refl

route_iff_example :
    (route (new relays bind) (codes "/serve/x") ≡ some (codes "serve", entry_from serve))
    ↔ IsLongest (new relays bind) (codes "/serve/x") (codes "serve") (entry_from serve)
route_iff_example =
    route_iff (new relays bind) (codes "/serve/x") (codes "serve") (entry_from serve)

abbrev glued : HttpRelay
glued = record kept { path = codes "api" }

unstripped_faithful_iff_example :
    (upstream_path (entry_from glued) (key_of glued) (slash ∷ (key_of glued ++ slash ∷ codes "/x"))
      ≡ some (slash ∷ (key_of glued ++ slash ∷ codes "/x")))
    ↔ (glued.path ≡ key_of glued ++ slash ∷ leading slash (codes "/x"))
unstripped_faithful_iff_example = unstripped_faithful_iff glued (codes "/x") refl

get_relay_example :
    get plain (new (glued ∷ []) bind) (codes "/api/x", none)
    ≡ upstream_uri plain (entry_from glued) (codes "/apix")
unfolding trim trim_start
get_relay_example =
    get_relay plain (glued ∷ []) bind glued (codes "/api/x", none) (codes "/x") (tt, tt)
      (Memᴰ.head refl) refl refl (inr (codes "x", refl)) only
  where
    only :
        (other : HttpRelay)
        → Memᴰ other (glued ∷ [])
        → IsAncestor (key_of other) (codes "api/x")
        → length (key_of other) ≤ length (key_of glued)
    only other (Memᴰ.head e) above = rw e (omega arith)
    only other (Memᴰ.tail m) above = elim m [ ]
