-- ===== src/Supervisor/Retry/Queue.antt =====
-- How long the queue of the guard of src/supervisor/retry.rs is.
use blahaj.Prelude.{
  ℕ, suc, ◌-◌, ◌≤◌, ◌<◌, [], ◌∷◌, ◌++◌, ◌≡◌, Bool, true, ok, panic, ◌⊎◌, inl, inr, Outcome-cases,
  Ensures, length, length-append, arith,
}
use blahaj.Supervisor.Retry.{RetryGuard, mark, evict, count_before}
use blahaj.Supervisor.Retry.Window.{length-drop}

-- A mark makes the queue at most one longer, and is allowed while it stays shorter than the count.
pub mark-length :
    (now : ℕ) (guard after : RetryGuard) (verdict : Bool)
    → mark now guard ≡ ok (after, verdict)
    → (length after.retries ≤ suc (length guard.retries))
      × (after.tolerance_count ≡ guard.tolerance_count)
      × (suc (length guard.retries) < guard.tolerance_count → verdict ≡ true)
unfolding mark evict
mark-length now guard after verdict e =
    let before = now - guard.tolerance_interval in
    let queue = guard.retries ++ now ∷ [] in
    (
      ground (
        arith,
        length-drop (count_before before queue) queue,
        length-append guard.retries (now ∷ []),
        e,
      ),
      ground arith,
      λ small. ground (
        arith,
        small,
        length-drop (count_before before queue) queue,
        length-append guard.retries (now ∷ []),
        e,
      ),
    )

pub mark-Ensures :
    (now : ℕ) (guard : RetryGuard)
    → (mark now guard ≡ panic)
      ⊎ Ensures
          (λ r.
            (length r.0.retries ≤ suc (length guard.retries))
            × (r.0.tolerance_count ≡ guard.tolerance_count)
            × (suc (length guard.retries) < guard.tolerance_count → r.1 ≡ true))
          (mark now guard)
mark-Ensures now guard = elim (Outcome-cases (mark now guard)) [
  | inl panics ↦ inl panics
  | inr ((after, verdict), marked) ↦ inr (rw (marked) (mark-length now guard after verdict marked))
]
