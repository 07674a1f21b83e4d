-- ===== src/Supervisor/Futs/CrashLoop.antt =====
-- When src/supervisor gives a program up that keeps exiting: the future of src/supervisor/futs.rs
-- with the guard of src/supervisor/retry.rs.
use blahaj.Prelude.{
  ℕ, ◌+◌, ◌-◌, ◌≤◌, List, [], ◌∷◌, ◌++◌, ◌≡◌, ◌∙◌, Option, some, Bool, false, ok, leb,
  if◌then◌else◌, length, length-append, All, All-append, arith,
}
use blahaj.Supervisor.Retry.{RetryGuard, new}
use blahaj.Supervisor.Retry.Window.{mark-All_within}
use blahaj.Supervisor.Futs.{Poll, ready, pending, Answers, new_repeated}
use blahaj.Supervisor.Futs.Rounds.{run_repeated, rounds, judge, run_repeated-judge}

-- A round that leaves a state to go on with: the process exited and was not told to stop. It ends
-- no longer than `interval` after `start`.
pub record Exits {I : Type 0} (start interval : ℕ) (round : ℕ × Option I) : Type 0 where
  pub state : I
  pub goes_on : round.1 ≡ some state
  pub begins : start ≤ round.0
  pub ends : round.0 ≤ start + interval

abbrev verdict : {I : Type 0} → RetryGuard → List (ℕ × Option I) → Poll Bool
verdict guard rounds =
    if leb guard.tolerance_count (length guard.retries + length rounds)
    then ready false
    else pending

All-map : (P Q : ℕ → Type 0) (xs : List ℕ) → ((x : ℕ) → P x → Q x) → All P xs → All Q xs
All-map P Q [] f h = tt
All-map P Q (x ∷ xs) f h = (f x h.0, All-map P Q xs f h.1)

judge-within :
    {I : Type 0} (start : ℕ) (guard : RetryGuard) (round : ℕ × Option I)
    (later : List (ℕ × Option I))
    → guard.tolerance_interval ≤ start
    → All (λ x. start ≤ x) guard.retries
    → All (Exits start guard.tolerance_interval) (round ∷ later)
    → judge guard (round ∷ later) ≡ ok (verdict guard (round ∷ later))
unfolding judge
judge-within start guard (now, out) [] late old (e, h) =
    let counted = mark-All_within now guard (omega arith) (
      All-map (λ x. start ≤ x) (λ x. now - guard.tolerance_interval ≤ x) guard.retries
        (λ x le. omega arith) old) in
    ground (arith, counted, e.goes_on)
judge-within start guard (now, out) (next ∷ later) late old (e, h) =
    let counted = mark-All_within now guard (omega arith) (
      All-map (λ x. start ≤ x) (λ x. now - guard.tolerance_interval ≤ x) guard.retries
        (λ x le. omega arith) old) in
    let next_guard = record guard { retries = guard.retries ++ now ∷ [] } in
    ground (
      arith,
      counted,
      e.goes_on,
      judge-within start next_guard next later late
          (All-append (λ x. start ≤ x) guard.retries (now ∷ []) old (e.begins, tt)) h,
      length-append guard.retries (now ∷ []),
    )

-- A program whose rounds all end within one tolerance window, none of them by a stop signal, and
-- that begins no earlier than the clock's start and the window's length: it is given up (the answer
-- is `false`) once the rounds are as many as the retry count, and is pending as long as they are
-- fewer. The first round always counts, so a count of 0 acts as 1.
pub crash_loop :
    {Fut I : Type 0} (factory : I → Fut) (initial : I) (start interval count delay : ℕ)
    (envs : List (Answers I)) (round : ℕ × Option I) (later : List (ℕ × Option I))
    → rounds envs ≡ round ∷ later
    → interval ≤ start
    → All (Exits start interval) (round ∷ later)
    → run_repeated factory envs (new_repeated initial (new [] interval count) delay)
      ≡ ok (if leb count (length (round ∷ later)) then ready false else pending)
unfolding new
crash_loop factory initial start interval count delay envs round later e late h =
    run_repeated-judge factory initial (new [] interval count) delay envs
    ∙ rw e (judge-within start (new [] interval count) round later late tt h ∙ ground arith)
