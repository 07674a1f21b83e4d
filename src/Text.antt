-- ===== src/Text.antt =====
-- The methods of Rust's `str` that the program calls, over lists of code points.
pub mod Laws
pub mod Split
use blahaj.Prelude.{
  ℕ, zero, suc, ◌-◌, ◌+◌, ◌/◌, ◌%◌, List, [], ◌∷◌, ◌++◌, Bool, true, false, ◌&&◌, Option, none,
  some, ◌==◌, if◌then◌else◌, length,
}
use blahaj.Prelude.Text.{Str}

-- `==` on texts.
unfoldable pub str_eq : Str → Str → Bool
str_eq [] [] = true
str_eq (x ∷ xs) (y ∷ ys) = x == y && str_eq xs ys
str_eq _ _ = false

-- `trim_start_matches(c)`.
unfoldable pub trim_start : ℕ → Str → Str
trim_start c [] = []
trim_start c (x ∷ s) = let rest = trim_start c s in if x == c then rest else x ∷ s

-- A character before an already trimmed text.
unfoldable pub cons_trimmed : ℕ → ℕ → Str → Str
cons_trimmed c x [] = if x == c then [] else x ∷ []
cons_trimmed c x (y ∷ s) = x ∷ y ∷ s

-- `trim_end_matches(c)`.
unfoldable pub trim_end : ℕ → Str → Str
unfolding cons_trimmed
trim_end c [] = []
trim_end c (x ∷ s) = cons_trimmed c x (trim_end c s)

-- `trim_matches(c)`.
unfoldable pub trim : ℕ → Str → Str
unfolding trim_start trim_end
trim c s = trim_end c (trim_start c s)

-- `strip_prefix(p)`.
unfoldable pub strip_prefix : Str → Str → Option Str
strip_prefix [] s = some s
strip_prefix (x ∷ p) [] = none
strip_prefix (x ∷ p) (y ∷ s) = let rest = strip_prefix p s in if x == y then rest else none

-- `rsplit_once(c)`: the texts before and behind the last `c`.
unfoldable pub rsplit_once : ℕ → Str → Option (Str × Str)
rsplit_once c [] = none
rsplit_once c (x ∷ s) = elim (rsplit_once c s) [
  | some (before, behind) ↦ some (x ∷ before, behind)
  | none ↦ if x == c then some ([], s) else none
]

-- The decimal digits of a number, on fuel: a `u16` has five at most.
digits : ℕ → ℕ → Str → Str
digits zero n out = out
digits (suc f) n out =
    let d = b'0' + n % 10 in
    let more = digits f (n / 10) (d ∷ out) in if n / 10 == 0 then d ∷ out else more

-- `{}` of a `u16`.
unfoldable pub show_u16 : ℕ → Str
unfolding digits
show_u16 n = digits 5 n []

-- `find(pattern)`, as the text from the first occurrence on; the pattern is not empty.
unfoldable pub find_from : Str → Str → Option Str
find_from pattern [] = none
find_from pattern (x ∷ s) =
    let later = find_from pattern s in
    elim (strip_prefix pattern (x ∷ s)) [ some _ ↦ some (x ∷ s) | none ↦ later ]

-- The text before the first `c`, or the whole text.
unfoldable pub before : ℕ → Str → Str
before c [] = []
before c (x ∷ s) = let rest = before c s in if x == c then [] else x ∷ rest

-- A character before the first of some texts.
unfoldable pub cons_first : ℕ → List Str → List Str
cons_first x [] = (x ∷ []) ∷ []
cons_first x (part ∷ parts) = (x ∷ part) ∷ parts

-- `split(c)`.
unfoldable pub split : ℕ → Str → List Str
unfolding cons_first
split c [] = [] ∷ []
split c (x ∷ s) = let rest = split c s in if x == c then [] ∷ rest else cons_first x rest

-- `replace(pattern, "")` behind `skip` characters of an occurrence that is passed over.
unfoldable pub remove_from : ℕ → Str → Str → Str
remove_from skip pattern [] = []
remove_from (suc skip) pattern (x ∷ s) = remove_from skip pattern s
remove_from zero pattern (x ∷ s) =
    let gone = remove_from (length pattern - 1) pattern s in
    let kept = x ∷ remove_from zero pattern s in
    elim (strip_prefix pattern (x ∷ s)) [ some _ ↦ gone | none ↦ kept ]

-- `replace(pattern, "")`; the pattern is not empty.
unfoldable pub remove : Str → Str → Str
unfolding remove_from
remove pattern s = remove_from 0 pattern s

-- `join(separator)`.
unfoldable pub join : Str → List Str → Str
join separator [] = []
join separator (part ∷ []) = part
join separator (part ∷ next ∷ parts) = part ++ (separator ++ join separator (next ∷ parts))

-- `{}` of a `usize` of 64 bits: at most twenty digits.
unfoldable pub show_usize : ℕ → Str
unfolding digits
show_usize n = digits 20 n []
