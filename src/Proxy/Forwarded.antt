-- ===== src/Proxy/Forwarded.antt =====
-- src/proxy/forwarded_header.rs: reading and writing the `Forwarded` header.
pub mod RoundTrip
mod Tests
use blahaj.Prelude.{ℕ, List, [], ◌∷◌, ◌++◌, Option, none, some, map}
use blahaj.Prelude.Text.{Str, codes}
use blahaj.Text.{find_from, before, split, remove, join}

pub record ForwardedHeader : Type 0 where
  pub by : Str
  pub for_ : List Str
  pub host : Str
  pub proto : Str

abbrev pub for_eq : Str
for_eq = codes "for="

-- The loop over the parts of the `for` subfield.
unfoldable pub listed_fors : Str → List Str
listed_fors forwarded = elim (find_from for_eq forwarded) [
  | none ↦ []
  | some found ↦ map (remove for_eq) (split b',' (before b';' found))
]

unfoldable pub from_info : Str → Str → Str → Str → Str → ForwardedHeader
from_info peer interface forwarded host proto = record {
  by = interface;
  for_ = listed_fors forwarded ++ peer ∷ [];
  host = host;
  proto = proto;
}

abbrev pub named : Str → Str
named x = for_eq ++ x

-- `to_string()`, from `fmt::Display`.
unfoldable pub display : ForwardedHeader → Str
display header =
    codes "by="
    ++ (header.by
        ++ (codes ";"
            ++ (join (codes ", ") (map named header.for_)
                ++ (codes ";host=" ++ (header.host ++ (codes ";proto=" ++ header.proto))))))
