-- ===== src/Text/Laws.antt =====
-- Laws of the text functions.
use blahaj.Prelude.{
  ℕ, [], ◌∷◌, ◌++◌, ◌≡◌, ◌≢◌, refl, true, none, some, ◌↔◌, inl, inr, arith, All, Option-cases,
}
use blahaj.Prelude.Text.{Str}
use blahaj.Text.{str_eq, trim_start, strip_prefix, rsplit_once}

pub str_eq_sound : (s t : Str) → str_eq s t ≡ true → s ≡ t
unfolding str_eq
str_eq_sound [] [] h = refl
str_eq_sound (x ∷ s) (y ∷ t) h = ground (arith, str_eq_sound s t)
str_eq_sound [] (y ∷ t) h = ground arith
str_eq_sound (x ∷ s) [] h = ground arith

pub str_eq_refl : (s : Str) → str_eq s s ≡ true
unfolding str_eq
str_eq_refl [] = refl
str_eq_refl (x ∷ s) = ground (arith, str_eq_refl s)

pub str_eq_iff : (s t : Str) → (str_eq s t ≡ true) ↔ (s ≡ t)
str_eq_iff s t = (str_eq_sound s t, λ e. rw e (str_eq_refl t))

pub strip_prefix-append : (p s : Str) → strip_prefix p (p ++ s) ≡ some s
unfolding strip_prefix
strip_prefix-append [] s = refl
strip_prefix-append (x ∷ p) s = ground (arith, strip_prefix-append p s)

pub strip_prefix_sound : (p s r : Str) → strip_prefix p s ≡ some r → s ≡ p ++ r
unfolding strip_prefix
strip_prefix_sound [] s r h = ground arith
strip_prefix_sound (x ∷ p) [] r h = ground arith
strip_prefix_sound (x ∷ p) (y ∷ s) r h = ground (arith, strip_prefix_sound p s r)

abbrev pub Lacks : ℕ → Str → Type 0
Lacks c s = All (λ x. x ≢ c) s

pub rsplit_once-none : (c : ℕ) (s : Str) → rsplit_once c s ≡ none → Lacks c s
unfolding rsplit_once
rsplit_once-none c [] h = tt
rsplit_once-none c (x ∷ s) h = ground (arith, rsplit_once-none c s)

-- Where the split falls: the part behind it has no `c`.
pub rsplit_once_sound :
    (c : ℕ) (s a b : Str) → rsplit_once c s ≡ some (a, b) → (s ≡ a ++ c ∷ b) × Lacks c b
unfolding rsplit_once
rsplit_once_sound c [] a b h = ground arith
rsplit_once_sound c (x ∷ s) a b h = elim (Option-cases (rsplit_once c s)) [
  | inl e ↦ ground (arith, e, rsplit_once-none c s e)
  | inr (q, e) ↦ ground (arith, e, rsplit_once_sound c s q.0 q.1)
]

pub rsplit_once_of_Lacks : (c : ℕ) (s : Str) → Lacks c s → rsplit_once c s ≡ none
unfolding rsplit_once
rsplit_once_of_Lacks c [] h = refl
rsplit_once_of_Lacks c (x ∷ s) h = ground (arith, rsplit_once_of_Lacks c s)

pub rsplit_once_at : (c : ℕ) (a b : Str) → Lacks c b → rsplit_once c (a ++ c ∷ b) ≡ some (a, b)
unfolding rsplit_once
rsplit_once_at c [] b h = ground (arith, rsplit_once_of_Lacks c b)
rsplit_once_at c (x ∷ a) b h = ground (arith, rsplit_once_at c a b)

-- A trimmed text does not begin with the character.
pub trim_start-ne-cons : (c : ℕ) (s r : Str) → trim_start c s ≢ c ∷ r
unfolding trim_start
trim_start-ne-cons c [] r = λ h. cc
trim_start-ne-cons c (x ∷ s) r = ground (arith, trim_start-ne-cons c s r)

pub trim_start_of_ne : (c x : ℕ) (s : Str) → x ≢ c → trim_start c (x ∷ s) ≡ x ∷ s
unfolding trim_start
trim_start_of_ne c x s h = ground arith

pub trim_start_self : (c : ℕ) (s : Str) → trim_start c (c ∷ s) ≡ trim_start c s
unfolding trim_start
trim_start_self c s = ground arith
