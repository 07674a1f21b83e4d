-- ===== src/Proxy/Handler/Samples.antt =====
-- Headers that are kept in lists, and a Uri that is its path and its query: what the handler of
-- src/proxy/handler.rs is run with.
use blahaj.Prelude.{List, [], ◌∷◌, ◌++◌, ◌≡◌, ◌≢◌, refl, ap, ◌∙◌, Option, none, some, arith}
use blahaj.Prelude.Text.{Str, codes}
use blahaj.Text.Laws.{str_eq_iff}
use blahaj.Map
use blahaj.Map.Laws.{lookup-insert, lookup-insert_self}
use blahaj.Proxy.{UriApi}
use blahaj.Proxy.Handler.{ClientApi, BuilderApi}

pub lookup-insert_other :
    {V : Type 0} (name other : Str) (v : V) (m : List (Str × V))
    → other ≢ name
    → Map.lookup other (Map.insert name v m) ≡ Map.lookup other m
lookup-insert_other name other v m ne =
    lookup-insert name other v m ∙ ground (arith, str_eq_iff name other, ne)

pub lookup-nil : {V : Type 0} (name : Str) → Map.lookup {V = V} name [] ≡ none
unfolding Map.lookup
lookup-nil name = refl

abbrev pub listed : {V : Type 0} → Option V → List V
listed none = []
listed (some v) = v ∷ []

abbrev pub builders : BuilderApi
builders = record {
  Value = Str;
  Builder = List (Str × Str);
  build = λ code. [];
  insert_header = Map.insert;
  values = λ name b. listed (Map.lookup name b);
  values-build = λ code name. ap listed (lookup-nil name);
  values-insert_same = λ name v b. ap listed (lookup-insert_self name v b);
  values-insert_other = λ name other v b ne. ap listed (lookup-insert_other name other v b ne);
}

-- Every text can be sent, and no header is copied.
abbrev pub clients : {Uri : Type 0} → ClientApi Uri
clients = record {
  ClientRequest = List (Str × Str);
  request_from = λ upstream req. (codes "accept", codes "*/*") ∷ (codes "via", codes "b") ∷ [];
  no_decompress = λ r. r;
  insert_header = Map.insert;
  header = Map.lookup;
  IsLegal = λ name. Unit;
  header-no_decompress = λ name r. refl;
  header-insert_same = λ name v r legal. lookup-insert_self name v r;
  header-insert_other = lookup-insert_other;
}

-- One that is built keeps the text that it is built of as its path.
abbrev pub plain : UriApi
plain = record {
  Uri = Str × Option Str;
  Authority = Str;
  PathAndQuery = Str;
  path = λ u. u.0;
  query = λ u. u.1;
  authority_from = λ t. some t;
  path_and_query_from = λ t. some t;
  build = λ s a p. some (a ++ p, none);
}
