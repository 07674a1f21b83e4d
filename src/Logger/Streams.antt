-- ===== src/Logger/Streams.antt =====
-- What the actor of src/logger.rs logs of the streams of the children.
use blahaj.Prelude.{
  ℕ, zero, suc, List, [], ◌∷◌, ◌++◌, ◌≡◌, refl, sym, ◌∙◌, ap, ◌⊎◌, inl, inr, Bool, true, false,
  Option, none, some, All, if◌then◌else◌, append-nil, arith,
}
use blahaj.Logger.{pull, take_items}

-- `Iterator::filter`.
abbrev pub filter {ℓ} : {A : Type ℓ} → (A → Bool) → List A → List A
filter keep [] = []
filter keep (x ∷ xs) = let rest = filter keep xs in if keep x then x ∷ rest else rest

abbrev pub concat {ℓ} : {A : Type ℓ} → List (List A) → List A
concat [] = []
concat (s ∷ streams) = s ++ concat streams

-- What is left of the streams after the items were taken.
abbrev pub left_after {ℓ} : {A : Type ℓ} → List ℕ → List (List A) → List (List A)
left_after [] streams = streams
left_after (place ∷ schedule) streams = left_after schedule (pull place streams).1

module _ {A : Type 0} (keep : A → Bool) where
  abbrev Kept : List A → Type 0
  Kept = All (λ x. keep x ≡ true)

  abbrev Dropped : List A → Type 0
  Dropped = All (λ x. keep x ≡ false)

  -- Of some streams, `mine` alone has items that are kept.
  abbrev pub Alone : List A → List (List A) → Type 0
  Alone mine [] = mine ≡ []
  Alone mine (s ∷ streams) =
      (Kept s × (s ≡ mine) × All Dropped streams) ⊎ (Dropped s × Alone mine streams)

  abbrev Pulled : List A → Option A × List (List A) → Type 0
  Pulled mine (none, streams) = Alone mine streams
  Pulled mine (some x, streams) =
      ((keep x ≡ false) × Alone mine streams)
      ⊎ ((keep x ≡ true) × ((rest : List A) × (mine ≡ x ∷ rest) × Alone rest streams))

  pull-Dropped :
      (place : ℕ) (streams : List (List A))
      → All Dropped streams
      → All Dropped (pull place streams).1
        × ((x : A) → (pull place streams).0 ≡ some x → keep x ≡ false)
  unfolding pull
  pull-Dropped place [] h = ground arith
  pull-Dropped zero ([] ∷ streams) h = ground arith
  pull-Dropped zero ((x ∷ s) ∷ streams) h = ground arith
  pull-Dropped (suc place) (s ∷ streams) (h, hs) =
      let (a, b) = pull-Dropped place streams hs in ((h, a), b)

  pull_beside :
      (s mine : List A) (r : Option A × List (List A))
      → Kept s
      → s ≡ mine
      → All Dropped r.1
      → ((x : A) → r.0 ≡ some x → keep x ≡ false)
      → Pulled mine (r.0, s ∷ r.1)
  pull_beside s mine (none, streams) k same h d = inl (k, same, h)
  pull_beside s mine (some x, streams) k same h d = inl (d x refl, inl (k, same, h))

  pull_behind :
      (s mine : List A) (r : Option A × List (List A))
      → Dropped s
      → Pulled mine r
      → Pulled mine (r.0, s ∷ r.1)
  pull_behind s mine (none, streams) d p = inr (d, p)
  pull_behind s mine (some x, streams) d (inl (e, p)) = inl (e, inr (d, p))
  pull_behind s mine (some x, streams) d (inr (k, (rest, e, p))) = inr (k, (rest, e, inr (d, p)))

  pull-Pulled :
      (place : ℕ) (mine : List A) (streams : List (List A))
      → Alone mine streams
      → Pulled mine (pull place streams)
  unfolding pull
  pull-Pulled place mine [] h = h
  pull-Pulled zero mine ([] ∷ streams) h = h
  pull-Pulled zero mine ((x ∷ s) ∷ streams) (inl (k, same, h)) =
      inr (k.0, (s, sym same, inl (k.1, refl, h)))
  pull-Pulled zero mine ((x ∷ s) ∷ streams) (inr (d, h)) = inl (d.0, inr (d.1, h))
  pull-Pulled (suc place) mine (s ∷ streams) (inl (k, same, h)) =
      let (a, b) = pull-Dropped place streams h in
      pull_beside s mine (pull place streams) k same a b
  pull-Pulled (suc place) mine (s ∷ streams) (inr (d, h)) =
      pull_behind s mine (pull place streams) d (pull-Pulled place mine streams h)

  -- What is kept of the items taken and of those left is `mine`.
  abbrev Whole : List A → List A × List (List A) → Type 0
  Whole mine (taken, left) = mine ≡ filter keep taken ++ filter keep (concat left)

  filter-append : (xs ys : List A) → filter keep (xs ++ ys) ≡ filter keep xs ++ filter keep ys
  filter-append [] ys = refl
  filter-append (x ∷ xs) ys = ground (arith, filter-append xs ys)

  filter-Kept : (xs : List A) → Kept xs → filter keep xs ≡ xs
  filter-Kept [] h = refl
  filter-Kept (x ∷ xs) (k, h) = rw (k) (ap (λ t. x ∷ t) (filter-Kept xs h))

  filter-Dropped : (xs : List A) → Dropped xs → filter keep xs ≡ []
  filter-Dropped [] h = refl
  filter-Dropped (x ∷ xs) (d, h) = rw (d) (filter-Dropped xs h)

  concat-Dropped :
      (streams : List (List A)) → All Dropped streams → filter keep (concat streams) ≡ []
  concat-Dropped [] h = refl
  concat-Dropped (s ∷ streams) (d, h) =
      rw (filter-append s (concat streams), filter-Dropped s d) (concat-Dropped streams h)

  concat-Alone :
      (mine : List A) (streams : List (List A))
      → Alone mine streams
      → mine ≡ filter keep (concat streams)
  concat-Alone mine [] h = h
  concat-Alone mine (s ∷ streams) (inl (k, same, h)) =
      rw (filter-append s (concat streams), filter-Kept s k, concat-Dropped streams h)
        (sym same ∙ sym (append-nil s))
  concat-Alone mine (s ∷ streams) (inr (d, h)) =
      rw (filter-append s (concat streams), filter-Dropped s d) (concat-Alone mine streams h)

  taken-cons :
      (schedule : List ℕ) (mine : List A) (r : Option A × List (List A))
      → ((own : List A) (streams : List (List A))
          → Alone own streams
          → Whole own (take_items schedule streams, left_after schedule streams))
      → Pulled mine r
      → Whole mine (
        elim r.0 [ none ↦ take_items schedule r.1 | some x ↦ x ∷ take_items schedule r.1 ],
        left_after schedule r.1,
      )
  taken-cons schedule mine (none, after) ih p = ih mine after p
  taken-cons schedule mine (some x, after) ih (inl (dropped, p)) = rw (dropped) (ih mine after p)
  taken-cons schedule mine (some x, after) ih (inr (kept, (own, e, p))) =
      rw (kept) (e ∙ ap (λ t. x ∷ t) (ih own after p))

  -- Of some streams, of which one alone has items that are kept: what is kept of the items taken,
  -- and then of those left, is that stream, in its order.
  pub taken-Alone :
      (schedule : List ℕ) (mine : List A) (streams : List (List A))
      → Alone mine streams
      → Whole mine (take_items schedule streams, left_after schedule streams)
  unfolding take_items
  taken-Alone [] mine streams h = concat-Alone mine streams h
  taken-Alone (place ∷ schedule) mine streams h =
      taken-cons schedule mine (pull place streams) (taken-Alone schedule)
        (pull-Pulled place mine streams h)
