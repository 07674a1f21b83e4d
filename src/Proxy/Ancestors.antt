-- ===== src/Proxy/Ancestors.antt =====
-- The ancestors of a path (src/proxy/mod.rs, `ancestors`).
use mathlib.Core.List.{Memᴰ}
use native.Mathlib.Nat.{le_refl}
use blahaj.Prelude.{
  ℕ, zero, suc, ◌≤◌, ◌<◌, List, [], ◌∷◌, ◌++◌, ◌≡◌, refl, ap, sym, ◌∙◌, none, some, ◌⊎◌, inl, inr,
  ◌↔◌, length, length-append, arith, Option-cases, All, append_assoc,
}
use blahaj.Prelude.Text.{Str}
use blahaj.Text.{rsplit_once}
use blahaj.Text.Laws.{rsplit_once_sound, rsplit_once-none, rsplit_once_at}
use blahaj.Proxy.{slash, successors, ancestors}

-- `p` is the path itself, or the path goes on behind it with a slash.
abbrev pub IsAncestor : Str → Str → Type 0
IsAncestor p path = (p ≡ path) ⊎ ((r : Str) × (path ≡ p ++ slash ∷ r))

module _ (path parent behind : Str) (split : rsplit_once slash path ≡ some (parent, behind)) where
  parent-shorter : length parent < length path
  parent-shorter = omega (
    arith,
    ap length (rsplit_once_sound slash path parent behind split).0,
    length-append parent (slash ∷ behind),
  )

  IsAncestor-grandparent : (p : Str) → IsAncestor p parent → IsAncestor p path
  IsAncestor-grandparent p (inl e) =
      inr (behind, rw e (rsplit_once_sound slash path parent behind split).0)
  IsAncestor-grandparent p (inr (r, e)) = inr (
    r ++ slash ∷ behind,
    (rsplit_once_sound slash path parent behind split).0 ∙ rw e (append_assoc p (slash ∷ r) _),
  )

successors_sound : (f : ℕ) (path p : Str) → Memᴰ p (successors f path) → IsAncestor p path
unfolding successors
successors_sound zero path p (Memᴰ.head e) = inl e
successors_sound zero path p (Memᴰ.tail r) = elim r [ ]
successors_sound (suc f) path p (Memᴰ.head e) = inl e
successors_sound (suc f) path p (Memᴰ.tail r) = elim (Option-cases (rsplit_once slash path)) [
  | inl e ↦ elim (rw e at r) [ ]
  | inr (q, e) ↦ IsAncestor-grandparent path q.0 q.1 e p (successors_sound f q.0 p (rw e at r))
]

-- The nearest ancestor above a path that goes on behind `p` is still below `p`, or is `p`.
parent-IsAncestor :
    (p r : Str)
    → (parent : Str) × (behind : Str) × (rsplit_once slash (p ++ slash ∷ r) ≡ some (parent, behind))
      × IsAncestor p parent
parent-IsAncestor p r = elim (Option-cases (rsplit_once slash r)) [
  | inl e ↦ (p, r, rsplit_once_at slash p r (rsplit_once-none slash r e), inl refl)
  | inr (q, e) ↦
      let (parts, lacks) = rsplit_once_sound slash r q.0 q.1 e in
      (
        p ++ slash ∷ q.0,
        q.1,
        ap (λ t. rsplit_once slash (p ++ slash ∷ t)) parts
            ∙ ap (rsplit_once slash) (sym (append_assoc p (slash ∷ q.0) (slash ∷ q.1)))
            ∙ rsplit_once_at slash (p ++ slash ∷ q.0) q.1 lacks,
        inr (q.0, refl),
      )
]

successors_complete :
    (f : ℕ) (path p : Str) → length path ≤ f → IsAncestor p path → Memᴰ p (successors f path)
unfolding successors
successors_complete zero path p le (inl e) = Memᴰ.head e
successors_complete (suc f) path p le (inl e) = Memᴰ.head e
successors_complete zero path p le (inr (r, e)) =
    absurd (omega (arith, ap length e, length-append p (slash ∷ r)))
successors_complete (suc f) path p le (inr (r, e)) =
    let (parent, behind, split, above) = parent-IsAncestor p r in
    let split' = ap (rsplit_once slash) e ∙ split in
    Memᴰ.tail (
      rw split' (
        successors_complete f parent p (omega (arith, parent-shorter path parent behind split'))
          above))

-- A text is listed by `ancestors` exactly when it is the path or the path goes on behind it with a
-- slash.
pub mem-ancestors_iff : (path p : Str) → Memᴰ p (ancestors path) ↔ IsAncestor p path
unfolding ancestors
mem-ancestors_iff path p =
    (successors_sound (length path) path p, successors_complete (length path) path p (le_refl _))

-- A list in which each text is longer than those behind it.
abbrev pub Descending : List Str → Type 0
Descending [] = Unit
Descending (p ∷ ps) = All (λ q. length q < length p) ps × Descending ps

All-lt_trans :
    (m n : ℕ) (ps : List Str) → m < n → All (λ q. length q < m) ps → All (λ q. length q < n) ps
All-lt_trans m n [] lt h = tt
All-lt_trans m n (p ∷ ps) lt h = (omega arith, All-lt_trans m n ps lt h.1)

successors-shorter :
    (f : ℕ) (path : Str) (n : ℕ) → length path < n → All (λ q. length q < n) (successors f path)
unfolding successors
successors-shorter zero path n lt = (lt, tt)
successors-shorter (suc f) path n lt = (
  lt,
  elim (Option-cases (rsplit_once slash path)) [
    | inl e ↦ rw e tt
    | inr (q, e) ↦ rw e (successors-shorter f q.0 n (omega (arith, parent-shorter path q.0 q.1 e)))
  ],
)

successors-Descending : (f : ℕ) (path : Str) → Descending (successors f path)
unfolding successors
successors-Descending zero path = (tt, tt)
successors-Descending (suc f) path = elim (Option-cases (rsplit_once slash path)) [
  | inl e ↦ rw e (tt, tt)
  | inr (q, e) ↦ rw e (
    successors-shorter f q.0 (length path) (parent-shorter path q.0 q.1 e),
    successors-Descending f q.0,
  )
]

-- `ancestors` lists the longest ancestor first.
pub ancestors-Descending : (path : Str) → Descending (ancestors path)
unfolding ancestors
ancestors-Descending path = successors-Descending (length path) path

successors-enough :
    (f g : ℕ) (path : Str)
    → length path ≤ f
    → length path ≤ g
    → successors f path ≡ successors g path
unfolding successors rsplit_once
successors-enough zero zero path le lg = refl
successors-enough (suc f) (suc g) path le lg = elim (Option-cases (rsplit_once slash path)) [
  | inl e ↦ rw (e) refl
  | inr ((parent, behind), e) ↦
      let shorter = parent-shorter path parent behind e in
      rw (e) (
        ap (λ t. path ∷ t)
          (successors-enough f g parent (omega (arith, shorter, le)) (omega (arith, shorter, lg))))
]
successors-enough zero (suc g) [] le lg = refl
successors-enough zero (suc g) (x ∷ path) le lg = absurd (omega (arith, le))
successors-enough (suc f) zero [] le lg = refl
successors-enough (suc f) zero (x ∷ path) le lg = absurd (omega (arith, lg))

-- The fuel never cuts the ancestors short: they are the path, followed by the ancestors of what
-- is before its last slash, if it has one.
ancestors_unfold :
    (path : Str)
    → ancestors path
      ≡ path ∷ elim (rsplit_once slash path) [ some (parent, _) ↦ ancestors parent | none ↦ [] ]
unfolding ancestors successors rsplit_once
ancestors_unfold [] = refl
ancestors_unfold (x ∷ path) = elim (Option-cases (rsplit_once slash (x ∷ path))) [
  | inl e ↦ rw (e) refl
  | inr ((parent, behind), e) ↦
      let shorter = parent-shorter (x ∷ path) parent behind e in
      rw (e) (
        ap (λ t. (x ∷ path) ∷ t)
          (successors-enough (length path) (length parent) parent (omega (arith, shorter))
            (omega arith)))
]
