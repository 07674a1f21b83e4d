-- ===== src/Text/Split.antt =====
-- Laws of searching, splitting and joining.
use blahaj.Prelude.{ℕ, [], ◌∷◌, ◌++◌, ◌≡◌, refl, arith}
use blahaj.Prelude.Text.{Str}
use blahaj.Text.{before, split}
use blahaj.Text.Laws.{Lacks}

pub before-append : (c : ℕ) (a b : Str) → Lacks c a → before c (a ++ c ∷ b) ≡ a
unfolding before
before-append c [] b h = ground arith
before-append c (x ∷ a) b h = ground (arith, before-append c a b)

pub split_of_Lacks : (c : ℕ) (a : Str) → Lacks c a → split c a ≡ a ∷ []
unfolding split
split_of_Lacks c [] h = refl
split_of_Lacks c (x ∷ a) h = ground (arith, split_of_Lacks c a)

pub split-append : (c : ℕ) (a b : Str) → Lacks c a → split c (a ++ c ∷ b) ≡ a ∷ split c b
unfolding split
split-append c [] b h = ground arith
split-append c (x ∷ a) b h = ground (arith, split-append c a b)
