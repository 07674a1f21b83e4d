-- ===== src/Supervisor/Futs/Tests.antt =====
-- Runs of the two futures of src/supervisor/futs.rs.
use blahaj.Prelude.{ℕ, List, [], ◌∷◌, ◌≡◌, refl, Bool, true, false, Option, none, some, ok, arith}
use blahaj.Prelude.Text.{Str}
use blahaj.Supervisor.Retry.{new, mark}
use blahaj.Supervisor.Futs.{
  Poll, ready, pending, RepeatedActFut, Answers, new_repeated, poll_repeated, Signals, status,
  new_abort, empty,
}
use blahaj.Supervisor.Futs.Rounds.{run_repeated, rounds, judge, run_repeated-judge}
use blahaj.Supervisor.Futs.CrashLoop.{crash_loop}
use blahaj.Supervisor.Futs.Abort.{
  killed, died, alive, nothing, more, shows_alive, shows_end, report, run_abort, run_abort-report,
}

abbrev at_time : ℕ → Poll (Option ℕ) → Bool → Answers ℕ
at_time now inner slept = record { now = now; inner = inner; slept = slept }

-- Two rounds, at 100 and 105, the second behind a sleep of two polls.
abbrev two_rounds : List (Answers ℕ)
two_rounds =
    at_time 99 pending false
    ∷ at_time 100 (ready (some 7)) false
    ∷ at_time 101 pending false
    ∷ at_time 102 pending true
    ∷ at_time 103 pending false
    ∷ at_time 104 pending false
    ∷ at_time 105 (ready (some 7)) false
    ∷ []

abbrev made : RepeatedActFut ℕ ℕ
made = record {
  fut = empty;
  state = some 7;
  retry_guard = record { retries = []; tolerance_interval = 10; tolerance_count = 2 };
  retry_interval = 1;
}

given_up :
    run_repeated (λ (i : ℕ). i) two_rounds (new_repeated 7 (new [] 10 2) 1) ≡ ok (ready false)
unfolding run_repeated new_repeated poll_repeated mark new
given_up = refl

run_repeated-judge_example :
    run_repeated (λ (i : ℕ). i) two_rounds (new_repeated 7 (new [] 10 2) 1)
    ≡ judge (new [] 10 2) (rounds two_rounds)
run_repeated-judge_example = run_repeated-judge (λ (i : ℕ). i) 7 (new [] 10 2) 1 two_rounds

crash_loop_example :
    run_repeated (λ (i : ℕ). i) two_rounds (new_repeated 7 (new [] 10 2) 1) ≡ ok (ready false)
unfolding rounds
crash_loop_example =
    crash_loop (λ (i : ℕ). i) 7 100 10 2 1 two_rounds (100, some 7) ((105, some 7) ∷ []) refl
      (omega arith)
      (
        record { state = 7; goes_on = refl; begins = omega arith; ends = omega arith },
        (record { state = 7; goes_on = refl; begins = omega arith; ends = omega arith }, tt),
      )

abbrev no_name : ℕ → Option Str
no_name n = none

abbrev quiet : Signals
quiet = record { stop = false; unhealthy = false; wait = pending }

abbrev core_dump : Signals
core_dump = record { stop = false; unhealthy = false; wait = ready (status 139) }

run_abort-report_example :
    run_abort no_name (quiet ∷ core_dump ∷ []) (new_abort {Child = ℕ} {Receiver = ℕ} 1 2 3)
    ≡ ok (report no_name 1 2 (alive ∷ died (killed 11 true) ∷ []))
run_abort-report_example = run_abort-report no_name 1 2 3 (
    more (shows_alive quiet refl refl refl)
      (more (shows_end core_dump (killed 11 true) (omega arith) refl refl refl) nothing))
