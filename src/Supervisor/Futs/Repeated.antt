-- ===== src/Supervisor/Futs/Repeated.antt =====
-- `RepeatedActFut` of src/supervisor/futs.rs: its polls never meet a missing state, never lose a
-- wake-up, and answer as the rounds of the inner future and the retry guard say.
use blahaj.Prelude.{◌≤◌, ◌≡◌, ◌⊎◌, true, Option, none, some, Ensures, arith}
use blahaj.Supervisor.Retry.{mark}
use blahaj.Supervisor.Futs.{
  pending, FutureSlot, polling, waiting, empty, RepeatedActFut, Answers, Polled, poll_repeated,
}

module _ {Fut I : Type 0} where
  -- The state is with the inner future while that runs, and in its field otherwise.
  abbrev pub Staged : FutureSlot Fut → Option I → Type 0
  Staged (polling _) state = state ≡ none
  Staged (waiting _) state = (i : I) × (state ≡ some i)
  Staged empty state = (i : I) × (state ≡ some i)

  -- A poll that is pending keeps the state staged; it has woken its task, or it has changed nothing
  -- and waits for what it polled. The guard's interval stays.
  pub record IsSoundPoll (this : RepeatedActFut Fut I) (p : Polled Fut I) : Type 0 where
    pub staged : p.answer ≡ pending → Staged p.after.fut p.after.state
    pub wakes : p.answer ≡ pending → (p.woken ≡ true) ⊎ (p.after ≡ this)
    pub same_interval : p.after.retry_guard.tolerance_interval ≡ this.retry_guard.tolerance_interval

  -- A poll of a staged future, at a time not below the guard's interval, does not panic; if it is
  -- pending, the state is staged again, and the task was woken or nothing changed.
  poll_repeated-IsSoundPoll :
      (factory : I → Fut) (env : Answers I) (this : RepeatedActFut Fut I)
      → Staged this.fut this.state
      → this.retry_guard.tolerance_interval ≤ env.now
      → Ensures (IsSoundPoll this) (poll_repeated factory env this)
  unfolding poll_repeated mark
  poll_repeated-IsSoundPoll factory env this staged late = ground arith
