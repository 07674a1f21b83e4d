-- ===== src/Map.antt =====
-- `HashMap` with text keys, as an association list; the order of its entries is never read.
pub mod Laws
use blahaj.Prelude.{List, [], ◌∷◌, Option, none, some, if◌then◌else◌}
use blahaj.Prelude.Text.{Str}
use blahaj.Text.{str_eq}

module _ {ℓ} {V : Type ℓ} where
  unfoldable pub lookup : Str → List (Str × V) → Option V
  lookup k [] = none
  lookup k ((j, v) ∷ m) = let rest = lookup k m in if str_eq j k then some v else rest

  -- An old value under the key is replaced.
  unfoldable pub insert : Str → V → List (Str × V) → List (Str × V)
  insert k v [] = (k, v) ∷ []
  insert k v ((j, w) ∷ m) =
      let rest = insert k v m in if str_eq j k then (k, v) ∷ m else (j, w) ∷ rest

  -- The entries of an iterator, inserted in turn.
  unfoldable pub extend : List (Str × V) → List (Str × V) → List (Str × V)
  extend m [] = m
  extend m ((k, v) ∷ rest) = extend (insert k v m) rest

  -- `collect()`.
  unfoldable pub collect : List (Str × V) → List (Str × V)
  unfolding extend insert
  collect entries = extend [] entries
