-- ===== src/Proxy/Forwarded/Tests.antt =====
-- The tests of src/proxy/forwarded_header.rs, and a header that passes through the proxy twice.
use blahaj.Prelude.{◌≡◌, refl, [], ◌∷◌, arith}
use blahaj.Prelude.Text.{Str, codes}
use blahaj.Text.{strip_prefix, find_from, before, split, remove, join}
use blahaj.Proxy.Forwarded.{ForwardedHeader, listed_fors, from_info, display}
use blahaj.Proxy.Forwarded.RoundTrip.{from_info-display}

forward : Str → Str
unfolding from_info listed_fors display find_from strip_prefix before split remove join
forward forwarded = display (
    from_info (codes "192.168.0.100") (codes "0.0.0.0") forwarded (codes "localhost:8080")
      (codes "http"))

no_previous_for :
    forward (codes "") ≡ codes "by=0.0.0.0;for=192.168.0.100;host=localhost:8080;proto=http"
unfolding forward
no_previous_for = refl

multiple_previous_for :
    forward (codes "for=192.168.0.97,for=192.168.0.98,for=192.168.0.99")
    ≡ codes
        "by=0.0.0.0;for=192.168.0.97, for=192.168.0.98, for=192.168.0.99, for=192.168.0.100;host=localhost:8080;proto=http"
unfolding forward
multiple_previous_for = refl

-- The second node of the header comes back as "for= b".
spaced_previous_for :
    forward (codes "for=a, for=b")
    ≡ codes "by=0.0.0.0;for=a, for= b, for=192.168.0.100;host=localhost:8080;proto=http"
unfolding forward
spaced_previous_for = refl

abbrev two_hops : ForwardedHeader
two_hops = record {
  by = codes "10.0.0.1";
  for_ = codes "10.0.0.7" ∷ codes "10.0.0.8" ∷ [];
  host = codes "site";
  proto = codes "http";
}

from_info-display_example :
    (from_info
      (codes "10.0.0.9")
      (codes "10.0.0.2")
      (display two_hops)
      (codes "site")
      (codes "http")).for_
    ≡ codes "10.0.0.7" ∷ codes " 10.0.0.8" ∷ codes "10.0.0.9" ∷ []
from_info-display_example =
    from_info-display two_hops (codes "10.0.0.7") (codes "10.0.0.8" ∷ []) (codes "10.0.0.9")
      (codes "10.0.0.2") (codes "site") (codes "http") refl (omega arith) (omega arith)
