-- ===== src/Supervisor/Retry/Window.antt =====
-- The guard of src/supervisor/retry.rs counts the events of a sliding window.
use native.Mathlib.Nat.{le_refl}
use blahaj.Prelude.{
  ℕ, zero, suc, ◌+◌, ◌-◌, ◌≤◌, ◌++◌, ◌≡◌, refl, List, [], ◌∷◌, Bool, false, Outcome, ok, panic,
  Outcome-cases, ◌⊎◌, inl, inr, ap, ◌∙◌, ◌>>=◌, ltb, leb, if◌then◌else◌, length, length-append,
  drop, All, All-append, Ascending, Ascending-concat, arith,
}
use blahaj.Supervisor.Retry.{RetryGuard, new, count_before, evict, mark}

-- The events at `from` or later, in their order.
abbrev pub since : ℕ → List ℕ → List ℕ
since from [] = []
since from (x ∷ xs) = if leb from x then x ∷ since from xs else since from xs

since-id : (from : ℕ) (xs : List ℕ) → All (λ y. from ≤ y) xs → since from xs ≡ xs
since-id from [] h = refl
since-id from (x ∷ xs) h = ground (arith, since-id from xs)

count_before_none : (b : ℕ) (xs : List ℕ) → All (λ y. b ≤ y) xs → count_before b xs ≡ 0
unfolding count_before
count_before_none b [] h = refl
count_before_none b (x ∷ xs) h = ground (arith, count_before_none b xs)

All-le_trans : (a b : ℕ) (xs : List ℕ) → a ≤ b → All (λ y. b ≤ y) xs → All (λ y. a ≤ y) xs
All-le_trans a b [] h k = tt
All-le_trans a b (x ∷ xs) h k = (omega arith, All-le_trans a b xs h k.1)

drop-count_before : (b : ℕ) (xs : List ℕ) → Ascending xs → drop (count_before b xs) xs ≡ since b xs
unfolding count_before
drop-count_before b [] h = refl
drop-count_before b (x ∷ xs) (le, a) =
    ground
      (arith, drop-count_before b xs a, All-le_trans b x xs, count_before_none b xs, since-id b xs)

-- Evicting from a queue in order keeps exactly the events that are not before the given time.
evict-eq-since :
    (guard : RetryGuard) (before : ℕ)
    → Ascending guard.retries
    → evict guard before ≡ record guard { retries = since before guard.retries }
unfolding evict
evict-eq-since guard before h = cc (drop-count_before before guard.retries h)

since-append : (from : ℕ) (xs ys : List ℕ) → since from (xs ++ ys) ≡ since from xs ++ since from ys
since-append from [] ys = refl
since-append from (x ∷ xs) ys = ground (arith, since-append from xs ys)

since-since : (a b : ℕ) (xs : List ℕ) → a ≤ b → since b (since a xs) ≡ since b xs
since-since a b [] h = refl
since-since a b (x ∷ xs) h = ground (arith, since-since a b xs)

module _ (interval count : ℕ) where
  -- The guard after the events of `history`, the last of them at `last`.
  record Tracks (history : List ℕ) (last : ℕ) (guard : RetryGuard) : Type 0 where
    same_interval : guard.tolerance_interval ≡ interval
    same_count : guard.tolerance_count ≡ count
    window : guard.retries ≡ since (last - interval) history
    ordered : Ascending history
    past : All (λ x. x ≤ last) history

  abbrev pub window_at : List ℕ → ℕ → List ℕ
  window_at history now = since (now - interval) (history ++ now ∷ [])

  abbrev pub verdict_at : List ℕ → ℕ → Bool
  verdict_at history now = ltb (length (window_at history now)) count

  since-All : (P : ℕ → Type 0) (from : ℕ) (xs : List ℕ) → All P xs → All P (since from xs)
  since-All P from [] h = tt
  since-All P from (x ∷ xs) h = ground (arith, since-All P from xs)

  since-Ascending : (from : ℕ) (xs : List ℕ) → Ascending xs → Ascending (since from xs)
  since-Ascending from [] h = tt
  since-Ascending from (x ∷ xs) h =
      ground (arith, since-Ascending from xs, since-All (λ y. x ≤ y) from xs)

  All-le_later : (a b : ℕ) (xs : List ℕ) → a ≤ b → All (λ x. x ≤ a) xs → All (λ x. x ≤ b) xs
  All-le_later a b [] h k = tt
  All-le_later a b (x ∷ xs) h k = (omega arith, All-le_later a b xs h k.1)

  window_step :
      (history : List ℕ) (last now : ℕ)
      → last ≤ now
      → since (now - interval) (since (last - interval) history ++ now ∷ []) ≡ window_at history now
  window_step history last now le = rw (
    since-append,
    since-append,
    since-since (last - interval) (now - interval) history (omega arith),
  )

  queue-Ascending :
      (history : List ℕ) (last now : ℕ)
      → last ≤ now
      → Ascending history
      → All (λ x. x ≤ last) history
      → Ascending (since (last - interval) history ++ now ∷ [])
  queue-Ascending history last now le a h =
      Ascending-concat _ now (since-Ascending _ history a)
        (since-All (λ x. x ≤ now) _ history (All-le_later last now history le h))

  after_mark : RetryGuard → List ℕ → ℕ → RetryGuard
  after_mark guard history now = record guard { retries = window_at history now }

  mark_lem :
      (history : List ℕ) (last now : ℕ) (guard : RetryGuard)
      → Tracks history last guard
      → last ≤ now
      → interval ≤ now
      → mark now guard ≡ ok (after_mark guard history now, verdict_at history now)
  unfolding mark after_mark
  mark_lem history last now guard t le enough = ground (
    arith,
    t,
    drop-count_before (now - interval) (since (last - interval) history ++ now ∷ [])
        (queue-Ascending history last now le t.ordered t.past),
    window_step history last now le,
  )

  after_mark-Tracks :
      (history : List ℕ) (last now : ℕ) (guard : RetryGuard)
      → Tracks history last guard
      → last ≤ now
      → Tracks (history ++ now ∷ []) now (after_mark guard history now)
  unfolding after_mark
  after_mark-Tracks history last now guard t le =
      let past = All-le_later last now history le t.past in
      record {
        same_interval = t.same_interval;
        same_count = t.same_count;
        window = refl;
        ordered = Ascending-concat history now t.ordered past;
        past = All-append (λ x. x ≤ now) history (now ∷ []) past (le_refl now, tt);
      }

  -- The verdict on each event of a sequence, from the events before it.
  abbrev pub verdicts : List ℕ → List ℕ → List Bool
  verdicts history [] = []
  verdicts history (now ∷ later) = verdict_at history now ∷ verdicts (history ++ now ∷ []) later

-- `mark` at each of the given times.
unfoldable pub marks : List ℕ → RetryGuard → Outcome (List Bool)
marks [] guard = ok []
marks (now ∷ later) guard = do
  (next, verdict) ← mark now guard
  rest ← marks later next
  ok (verdict ∷ rest)

All-zero : (xs : List ℕ) → All (λ y. 0 ≤ y) xs
All-zero [] = tt
All-zero (x ∷ xs) = (omega arith, All-zero xs)

module _ (interval count : ℕ) where
  marks-Tracks :
      (later history : List ℕ) (last : ℕ) (guard : RetryGuard)
      → Tracks interval count history last guard
      → Ascending (last ∷ later)
      → All (λ t. interval ≤ t) later
      → marks later guard ≡ ok (verdicts interval count history later)
  unfolding marks
  marks-Tracks [] history last guard t a h = refl
  marks-Tracks (now ∷ later) history last guard t (le, a) (enough, h) = rw (
    mark_lem interval count history last now guard t le.0 enough,
    marks-Tracks later (history ++ now ∷ []) now (after_mark interval count guard history now)
        (after_mark-Tracks interval count history last now guard t le.0) a h,
  )

  -- A new guard that is marked at times in order, none of them below the tolerance interval, never
  -- panics, and its answer at each time `t` is whether fewer than `count` of the marks up to then,
  -- this one included, lie at `t - interval` or later.
  pub marks-new :
      (times : List ℕ)
      → Ascending times
      → All (λ t. interval ≤ t) times
      → marks times (new [] interval count) ≡ ok (verdicts interval count [] times)
  unfolding new
  marks-new times a h =
      marks-Tracks times [] 0 _
        (record { same_interval = refl; same_count = refl; window = refl; ordered = tt; past = tt })
        (All-zero times, a) h

pub length-drop : (n : ℕ) (xs : List ℕ) → length (drop n xs) ≡ length xs - n
length-drop zero xs = omega arith
length-drop (suc n) [] = omega arith
length-drop (suc n) (x ∷ xs) = omega (arith, length-drop n xs)

count_before-concat : (b t : ℕ) (xs : List ℕ) → b ≤ t → count_before b (xs ++ t ∷ []) ≤ length xs
unfolding count_before
count_before-concat b t [] h = ground arith
count_before-concat b t (x ∷ xs) h = ground (arith, count_before-concat b t xs)

-- A guard whose count is at most one refuses every event that it does not panic at: the event that
-- is marked counts itself.
mark-count_le_one :
    (now : ℕ) (guard : RetryGuard)
    → guard.tolerance_count ≤ 1
    → (mark now guard ≡ panic) ⊎ ((after : RetryGuard) × (mark now guard ≡ ok (after, false)))
unfolding mark evict
mark-count_le_one now guard small =
    let before = now - guard.tolerance_interval in
    let queue = guard.retries ++ now ∷ [] in
    elim (Outcome-cases (mark now guard)) [
      | inl panics ↦ inl panics
      | inr ((after, verdict), answered) ↦
          let refused : verdict ≡ false = ground (
            arith,
            length-drop (count_before before queue) queue,
            count_before-concat before now guard.retries,
            length-append guard.retries (now ∷ []),
            answered,
          ) in
          inr (after, answered ∙ ap (λ v. ok (after, v)) refused)
    ]

-- While the window still holds every earlier event, an event is one more in the queue.
pub mark-All_within :
    (now : ℕ) (guard : RetryGuard)
    → guard.tolerance_interval ≤ now
    → All (λ x. now - guard.tolerance_interval ≤ x) guard.retries
    → mark now guard
      ≡ ok (
        record guard { retries = guard.retries ++ now ∷ [] },
        ltb (length guard.retries + 1) guard.tolerance_count,
      )
unfolding mark evict
mark-All_within now guard late h = ground (
  arith,
  count_before_none (now - guard.tolerance_interval) (guard.retries ++ now ∷ []) (
      All-append (λ x. now - guard.tolerance_interval ≤ x) guard.retries (now ∷ []) h
        (omega arith, tt)),
  length-append guard.retries (now ∷ []),
)
