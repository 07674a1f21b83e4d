-- ===== src/Supervisor/Caretaker/GivingUp.antt =====
-- A program of src/supervisor/caretaker.rs whose child ends again and again: when it is given up.
mod Steps
mod Tests
use blahaj.Prelude.{
  ℕ, suc, ◌+◌, ◌-◌, ◌≤◌, ◌<◌, List, [], ◌∷◌, ◌++◌, ◌≡◌, ◌≢◌, refl, subst, Bool, true, false, Option,
  none, some, Outcome, ok, Ensures, Outcome-cases, Bool-cases, length-append, All-append, ap, ◌∙◌,
  inl, inr, ◌⊎◌, ltb, length, All, arith,
}
use blahaj.Prelude.Text.{Str}
use blahaj.Config.{Program}
use blahaj.Proxy.{Scheme}
use blahaj.Supervisor.Lifecycle.{failed}
use blahaj.Supervisor.Health.{HealthConfig}
use blahaj.Supervisor.Retry
use blahaj.Supervisor.Retry.{RetryGuard, mark}
use blahaj.Supervisor.Retry.Window.{mark-All_within}
use blahaj.Supervisor.Futs.{
  RepeatedActFut, FutureSlot, empty, polling, waiting, ready, status, new_repeated, poll_repeated,
  poll_abort, new_abort, exit_error,
}
use blahaj.Supervisor.Futs.Abort.{Cause, exits, killed, IsCause, word_of}
use blahaj.Supervisor.Caretaker.Endings.{run-over}
use blahaj.Supervisor.Caretaker.{
  new, started, handle_wait, CaretakerActor, Command, build_command, broadcast_stopped,
}
use blahaj.Supervisor.Caretaker.Run.{
  RunResult, Child, Receiver, Spawned, spawned, health_config, begin_run, after_watch, conclude,
  finish_run, one_round, finish_daemon, daemon_future,
}
use blahaj.Supervisor.Caretaker.System.{
  Phase, asked, watching, reported, System, Daemon, active, over, Event, start, handle_daemon,
  poll_daemon, handle_run, poll_watch, wait_msg, step, run,
}
use blahaj.Supervisor.Caretaker.GivingUp.Steps.{
  Round, events_of, future_of, IsAt, IsReported, IsGivenUp, then_Ensures, wakes-Ensures,
  goes_on-Ensures, gives_up-Ensures, reported_Ensures,
}

All-impl : {P Q : ℕ → Type 0} → ((x : ℕ) → P x → Q x) → (xs : List ℕ) → All P xs → All Q xs
All-impl f [] h = tt
All-impl f (x ∷ xs) (p, h) = (f x p, All-impl f xs h)

-- The program is given up, if the rounds are as many as the count; the daemon is there otherwise.
abbrev pub Verdict : Program → ℕ → System → Type 0
Verdict program rounds s =
    (IsGivenUp s × (program.retry.count ≤ rounds))
    ⊎ ((s.daemon ≢ over) × (rounds < program.retry.count))

abbrev pub events_of_all : List Round → List Event
events_of_all [] = []
events_of_all (round ∷ rounds) = events_of round ++ events_of_all rounds

-- A round within the window from the start.
pub record IsRound (program : Program) (start_time : ℕ) (round : Round) : Type 0 where
  pub is : IsCause round.cause
  pub begins : start_time ≤ round.now
  pub ends : round.now ≤ start_time + program.retry.window

module _ (build_uri : Scheme → Str → Str → Option Str) (spawn : Command → Spawned)
    (signal_name : ℕ → Option Str) (program : Program) (child : Child)
    (spawnable : spawn (build_command program) ≡ spawned child) (config : Option HealthConfig)
    (legal : health_config build_uri program.http ≡ ok config) where
  abbrev after : List Event → System → Outcome System
  after = run build_uri spawn signal_name

  stays_given_up :
      (n : ℕ) (events : List Event) (s : System)
      → program.retry.count ≤ n
      → IsGivenUp s
      → Ensures (Verdict program n) (after events s)
  stays_given_up n events s many up =
      rw (run-over build_uri spawn signal_name events s up.done up.stopped up.sent (inr up.status))
        (inl (up, many))

  module _ (rx : Receiver) (start_time : ℕ) (late : program.retry.window ≤ start_time) where
    counted :
        (marks : List ℕ) (round : Round)
        → All (λ x. start_time ≤ x) marks
        → IsRound program start_time round
        → mark round.now (future_of program empty none marks).retry_guard
          ≡ ok (
            (future_of program empty none (marks ++ round.now ∷ [])).retry_guard,
            ltb (length marks + 1) program.retry.count,
          )
    counted marks round old r =
        let (begins, ends) : (start_time ≤ round.now)
            × (round.now ≤ start_time + program.retry.window) =
          (r.begins, r.ends) in
        mark-All_within round.now (future_of program empty none marks).retry_guard (omega arith)
          (All-impl (λ x le. omega arith) marks old)

    one_more :
        (marks : List ℕ) (round : Round) (rounds : List Round)
        → length (marks ++ round.now ∷ []) + length rounds ≡ length marks + length (round ∷ rounds)
    one_more marks round rounds = omega (arith, length-append marks (round.now ∷ []))

    fewer :
        (marks : List ℕ) (round : Round)
        → ltb (length marks + 1) program.retry.count ≡ true
        → length (marks ++ round.now ∷ []) < program.retry.count
    fewer marks round within = ground (arith, within, length-append marks (round.now ∷ []))

    -- One round, after which the program is given up or the others come.
    round-Ensures :
        (marks : List ℕ) (round : Round) (all : ℕ) (more : List Event) (s : System)
        → length marks + 1 ≤ all
        → IsAt program empty (some rx) marks s
        → All (λ x. start_time ≤ x) marks
        → IsRound program start_time round
        → ((v : System)
            → length (marks ++ round.now ∷ []) < program.retry.count
            → IsAt program empty (some rx) (marks ++ round.now ∷ []) v
            → Ensures (Verdict program all) (after more v))
        → Ensures (Verdict program all) (after (events_of round ++ more) s)
    round-Ensures marks round all more s le at old r rest =
        let poll = poll_daemon round.now true in
        let marked = (future_of program empty none (marks ++ round.now ∷ [])).retry_guard in
        let known = counted marks round old r in
        reported_Ensures build_uri spawn signal_name program child spawnable config legal rx marks
          round (Verdict program all) more s r.is at
          (λ t reported. elim (Bool-cases (ltb (length marks + 1) program.retry.count)) [
            | inl within ↦
                then_Ensures build_uri spawn signal_name program _ (Verdict program all) poll
                  (poll ∷ more) t
                  (goes_on-Ensures build_uri spawn signal_name program rx marks t round.now
                    (known ∙ ap (λ b. ok (marked, b)) within) reported)
                  (λ u waits.
                    then_Ensures build_uri spawn signal_name program _ (Verdict program all) poll
                      more u
                      (wakes-Ensures build_uri spawn signal_name program rx
                        (marks ++ round.now ∷ []) u round.now waits)
                      (λ v again. rest v (fewer marks round within) again))
            | inr spent ↦
                then_Ensures build_uri spawn signal_name program _ (Verdict program all) poll
                  (poll ∷ more) t
                  (gives_up-Ensures build_uri spawn signal_name program rx marks t round.now
                    (known ∙ ap (λ b. ok (marked, b)) spent) reported)
                  (λ u up. stays_given_up all (poll ∷ more) u (ground (arith, spent)) up)
          ])

    rounds-Ensures :
        (rounds : List Round) (marks : List ℕ) (s : System)
        → (rounds ≡ [] → length marks < program.retry.count)
        → IsAt program empty (some rx) marks s
        → All (λ x. start_time ≤ x) marks
        → All (IsRound program start_time) rounds
        → Ensures (Verdict program (length marks + length rounds)) (after (events_of_all rounds) s)
    unfolding run
    rounds-Ensures [] marks s few at old h =
        inr ((λ e. ground (arith, e, at)), omega (arith, few refl))
    rounds-Ensures (round ∷ rounds) marks s few at old (r, h) =
        round-Ensures marks round (length marks + length (round ∷ rounds)) (events_of_all rounds) s
          (omega arith) at old r
          (λ v few_left again.
            subst (λ n. Ensures (Verdict program n) (after (events_of_all rounds) v))
              (one_more marks round rounds)
              (rounds-Ensures rounds (marks ++ round.now ∷ []) v (λ _. few_left) again
                (All-append (λ x. start_time ≤ x) marks (round.now ∷ []) old (r.begins, tt)) h))

  -- A caretaker that handled a `Wait` and then nothing but its rounds, in each of which its child is
  -- spawned and ends by itself, all within one window from a start: if the rounds are as many as the
  -- retry count (or more), the daemon is done, the program has failed and those that wait are told,
  -- and if they are fewer the daemon is not done. This is where the program can be spawned, the Uri
  -- of its health check can be built, and the start is not below the program's window.
  pub rounds-Verdict :
      (name : Str) (stop_rx : Receiver) (start_time : ℕ) (round : Round) (rounds : List Round)
      → program.retry.window ≤ start_time
      → All (IsRound program start_time) (round ∷ rounds)
      → Ensures (Verdict program (length (round ∷ rounds))) (
          after
            (wait_msg ∷ handle_daemon ∷ events_of_all (round ∷ rounds))
            (start name program stop_rx))
  unfolding run start started new step handle_wait daemon_future new_repeated Retry.new
  rounds-Verdict name stop_rx start_time round rounds late h =
      subst
        (λ n. Ensures (Verdict program n) (
          after (wait_msg ∷ handle_daemon ∷ events_of_all (round ∷ rounds))
            (start name program stop_rx)))
        (omega arith)
        (rounds-Ensures stop_rx start_time late (round ∷ rounds) [] _ (λ e. ground (arith, e))
          (record {
            same_program = refl;
            unstopped = refl;
            awaited = λ e. ground (arith, e);
            unsent = λ e. ground (arith, e);
            here = refl;
          })
          tt h)
