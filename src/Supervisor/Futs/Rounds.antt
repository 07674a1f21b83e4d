-- ===== src/Supervisor/Futs/Rounds.antt =====
-- The answers of `RepeatedActFut` of src/supervisor/futs.rs over a sequence of polls, against the
-- rounds of its inner future.
use blahaj.Prelude.{
  ℕ, List, [], ◌∷◌, ◌≡◌, refl, ◌⊎◌, inl, inr, Bool, true, false, Option, none, some, Outcome, ok,
  panic, Outcome-cases, if◌then◌else◌, arith,
}
use blahaj.Supervisor.Retry.{RetryGuard, mark}
use blahaj.Supervisor.Futs.{
  Poll, ready, pending, FutureSlot, polling, waiting, empty, RepeatedActFut, Answers, new_repeated,
  poll_repeated,
}
use blahaj.Supervisor.Futs.Repeated.{Staged}

module _ {Fut I : Type 0} where
  -- Polls in turn, until one is ready.
  unfoldable pub run_repeated :
      (I → Fut) → List (Answers I) → RepeatedActFut Fut I → Outcome (Poll Bool)
  run_repeated factory [] this = ok pending
  run_repeated factory (env ∷ envs) this = elim (poll_repeated factory env this) [
    | panic ↦ panic
    | ok p ↦ elim p.answer [ ready b ↦ ok (ready b) | pending ↦ run_repeated factory envs p.after ]
  ]

-- The inner future runs, the sleep after it runs, or the next inner future is to be made.
pub data Stage : Type 0 where
  running resting idle : Stage

module _ {I : Type 0} where
  -- The rounds that end in a sequence of polls, each with its time and what the inner future gives.
  rounds_from : Stage → List (Answers I) → List (ℕ × Option I)
  rounds_from stage [] = []
  rounds_from idle (env ∷ envs) = rounds_from running envs
  rounds_from resting (env ∷ envs) = rounds_from (if env.slept then idle else resting) envs
  rounds_from running (env ∷ envs) = elim env.inner [
    | pending ↦ rounds_from running envs
    | ready none ↦ (env.now, none) ∷ []
    | ready (some res) ↦ (env.now, some res) ∷ rounds_from resting envs
  ]

  -- The rounds of polls that begin before the first inner future is made.
  unfoldable pub rounds : List (Answers I) → List (ℕ × Option I)
  unfolding rounds_from
  rounds envs = rounds_from idle envs

  -- The answer after some rounds: `true` at the first that gives no state, `false` at the first that
  -- the guard refuses, and none yet otherwise.
  unfoldable pub judge : RetryGuard → List (ℕ × Option I) → Outcome (Poll Bool)
  judge guard [] = ok pending
  judge guard ((now, none) ∷ later) = ok (ready true)
  judge guard ((now, some res) ∷ later) = elim (mark now guard) [
    | panic ↦ panic
    | ok (next, within) ↦ elim within [ true ↦ judge next later | false ↦ ok (ready false) ]
  ]

inner-cases :
    {I : Type 0} (inner : Poll (Option I))
    → ((inner ≡ pending) ⊎ (inner ≡ ready none)) ⊎ ((res : I) × (inner ≡ ready (some res)))
inner-cases pending = inl (inl refl)
inner-cases (ready none) = inl (inr refl)
inner-cases (ready (some res)) = inr (res, refl)

module _ {Fut I : Type 0} (factory : I → Fut) where
  abbrev stage_of : FutureSlot Fut → Stage
  stage_of (polling _) = running
  stage_of (waiting _) = resting
  stage_of empty = idle

  run-judge :
      (envs : List (Answers I)) (slot : FutureSlot Fut) (this : RepeatedActFut Fut I)
      → this.fut ≡ slot
      → Staged slot this.state
      → run_repeated factory envs this ≡ judge this.retry_guard (rounds_from (stage_of slot) envs)
  unfolding run_repeated poll_repeated rounds_from judge
  run-judge [] slot this e staged = refl
  run-judge (env ∷ envs) empty this e (i, s) = ground (
    arith,
    run-judge envs (polling (factory i)) (record this { state = none; fut = polling (factory i) })
        refl refl,
  )
  run-judge (env ∷ envs) (waiting d) this e staged = ground (
    arith,
    run-judge envs empty (record this { fut = empty }) refl staged,
    run-judge envs (waiting d) this e staged,
  )
  run-judge (env ∷ envs) (polling f) this e staged = elim (inner-cases env.inner) [
    | inl unready ↦ ground (arith, run-judge envs (polling f) this e staged)
    | inr (res, exits) ↦ elim (Outcome-cases (mark env.now this.retry_guard)) [
      | inl panics ↦ ground arith
      | inr ((guard, within), marked) ↦ ground (
        arith,
        run-judge envs (waiting this.retry_interval)
            (record this {
              fut = waiting this.retry_interval;
              state = some res;
              retry_guard = guard;
            })
            refl (res, refl),
      )
    ]
  ]

-- The future that is made with a state, a guard and a delay answers over any sequence of polls what
-- the rounds of its inner future and the guard say, and panics where marking a round does: it
-- depends neither on the factory and the states, nor on the polls that end no round.
pub run_repeated-judge :
    {Fut I : Type 0} (factory : I → Fut) (initial : I) (guard : RetryGuard) (delay : ℕ)
    (envs : List (Answers I))
    → run_repeated factory envs (new_repeated initial guard delay) ≡ judge guard (rounds envs)
unfolding new_repeated rounds
run_repeated-judge factory initial guard delay envs =
    run-judge factory envs empty (new_repeated initial guard delay) refl (initial, refl)
