-- ===== src/Supervisor/Caretaker/Tests.antt =====
-- A caretaker of src/supervisor/caretaker.rs through some events.
use blahaj.Prelude.{
  ℕ, List, [], ◌∷◌, ◌++◌, ◌≡◌, refl, ◌⊎◌, true, false, Option, none, some, Outcome, ok, panic,
  Ensures, arith,
}
use blahaj.Prelude.Text.{Str, codes}
use blahaj.Config.{Program}
use blahaj.Proxy.{Scheme}
use blahaj.Supervisor.Lifecycle.{terminated, failed, starting, healthy}
use blahaj.Supervisor.Retry.{mark}
use blahaj.Supervisor.Retry
use blahaj.Supervisor.Futs.{
  ready, pending, status, new_repeated, new_abort, poll_repeated, poll_abort, RepeatedActFut,
  Polled, exit_error,
}
use blahaj.Supervisor.Caretaker.{
  Command, new, started, handle_terminate, handle_wait, handle_set_health_state, broadcast_stopped,
  build_command,
}
use blahaj.Supervisor.Caretaker.Run.{
  Receiver, Spawned, spawned, after_watch, conclude, finish_run, one_round, daemon_future,
  finish_daemon, begin_run, health_config,
}
use blahaj.Supervisor.Caretaker.System.{
  Phase, active, over, System, start, Event, handle_daemon, poll_daemon, handle_run, poll_watch,
  look_at_end, child_gone, terminate_msg, wait_msg, set_health_msg, has_receiver, step, run,
}
use blahaj.Supervisor.Caretaker.Invariant.{IsSound, run-IsSound}
use blahaj.Supervisor.Caretaker.Endings.{
  over_is_final, unwaited_end_panics, terminate_resting, watched_child,
}
use blahaj.Supervisor.Caretaker.Terminating.{
  handled, looked_at, stopped, ends_round, slept_well, asks, spawns, signalled, gone, ends_last,
}
use blahaj.Supervisor.Caretaker.Terminating.Fairness.{
  IsEnded, arrived, also, advances, terminate_ends,
}
use blahaj.Supervisor.Caretaker.Transitions.{may_follow, step-may_follow}

abbrev sleeper : Program
sleeper = record {
  command = record { cmd = codes "sleep"; args = codes "5" ∷ [] };
  env = [];
  http = none;
  retry = record { window = 10; count = 1; delay = 2 };
  grace = 3;
}

abbrev patient : Program
patient = record sleeper { retry = record { window = 10; count = 9; delay = 2 } }

abbrev build_uri : Scheme → Str → Str → Option Str
build_uri scheme authority path = some (authority ++ path)

abbrev spawn : Command → Spawned
spawn command = spawned 77

abbrev signal_name : ℕ → Option Str
signal_name n = none

-- The daemon makes its future and asks for the first run, in which a child is spawned.
abbrev up : List Event
up = handle_daemon ∷ poll_daemon 20 false ∷ handle_run 2 ∷ set_health_msg healthy ∷ []

-- The child exits with code 1, which uses the one retry up.
abbrev down : List Event
down = poll_watch false (ready (status 256)) ∷ poll_daemon 30 false ∷ []

result : Program → List Event → Outcome System
unfolding run step start started new has_receiver handle_terminate handle_wait
    handle_set_health_state daemon_future new_repeated poll_repeated mark Retry.new begin_run
    build_command new_abort poll_abort exit_error after_watch conclude finish_run one_round
    finish_daemon broadcast_stopped
result program events = run build_uri spawn signal_name events (start (codes "s") program 1)

-- The system after some events, if they do not panic.
reached : Program → List Event → System
unfolding result
reached program events = elim (result program events) [
  | ok s ↦ s
  | panic ↦ start (codes "s") program 1
]

awaited_failure : (reached sleeper (wait_msg ∷ up ++ down)).actor.status ≡ failed
unfolding reached
awaited_failure = refl

unawaited_failure : result sleeper (up ++ down) ≡ panic
unfolding result
unawaited_failure = refl

run-IsSound_example : IsSound (reached patient up)
unfolding reached
run-IsSound_example =
    run-IsSound build_uri spawn signal_name (codes "s") patient 1 up (reached patient up) refl

abbrev dead : System
dead = reached sleeper (wait_msg ∷ up ++ down)

over_is_final_example :
    ((dead.actor.status ≡ terminated) ⊎ (dead.actor.status ≡ failed))
    × (run build_uri spawn signal_name up dead ≡ ok dead)
unfolding reached
over_is_final_example =
    over_is_final build_uri spawn signal_name (codes "s") sleeper 1 (wait_msg ∷ up ++ down) up dead
      refl refl

step-may_follow_example : may_follow terminated starting ≡ true
unfolding reached
step-may_follow_example =
    step-may_follow build_uri spawn signal_name (codes "s") patient 1
      (up ++ down ++ poll_daemon 31 true ∷ poll_daemon 32 false ∷ []) (handle_run 3)
      (reached patient (up ++ down ++ poll_daemon 31 true ∷ poll_daemon 32 false ∷ []))
      (reached patient
        (up ++ down ++ poll_daemon 31 true ∷ poll_daemon 32 false ∷ handle_run 3 ∷ []))
      refl refl

-- The daemon's future of a system, if it is active.
future_in : System → RepeatedActFut Phase Receiver
unfolding new_repeated Retry.new
future_in s = elim s.daemon [ active future ↦ future | _ ↦ new_repeated 0 (Retry.new [] 0 0) 0 ]

abbrev ended : List Event
ended = up ++ poll_watch false (ready (status 256)) ∷ []

-- What the daemon's future leaves when the only run has ended.
last_poll : Polled Phase Receiver
unfolding reached future_in mark poll_repeated
last_poll = record {
  after = record (future_in (reached sleeper ended)) {
    retry_guard = record { retries = 30 ∷ []; tolerance_interval = 10; tolerance_count = 1 };
  };
  answer = ready false;
  woken = false;
}

unwaited_end_panics_example :
    step build_uri spawn signal_name (poll_daemon 30 false) (reached sleeper ended) ≡ panic
unfolding reached future_in last_poll
unwaited_end_panics_example =
    unwaited_end_panics build_uri spawn signal_name (codes "s") sleeper 1 ended
      (reached sleeper ended) (future_in (reached sleeper ended)) last_poll false 30 false
      ((λ e. cc), ((λ e. cc), ((λ e. cc), ((λ e. cc), ((λ e. cc), tt))))) refl refl refl refl

abbrev busy : System
busy = reached patient up

abbrev resting : System
resting = reached patient (up ++ down)

terminate_resting_example :
    Ensures
      (λ t. watched_child t.daemon ≡ some 77)
      (run build_uri spawn signal_name
        (terminate_msg ∷ wait_msg ∷ poll_daemon 40 true ∷ poll_daemon 40 false ∷ handle_run 5 ∷ [])
        resting)
    × Ensures
        (λ t. (t.daemon ≡ over) × (t.actor.status ≡ terminated))
        (run build_uri spawn signal_name
          (terminate_msg
            ∷ wait_msg
            ∷ poll_daemon 40 true
            ∷ poll_daemon 40 false
            ∷ handle_run 5
            ∷ poll_watch false pending
            ∷ child_gone
            ∷ poll_daemon 40 false
            ∷ [])
          resting)
unfolding reached future_in
terminate_resting_example =
    terminate_resting build_uri spawn signal_name resting
      (run-IsSound build_uri spawn signal_name (codes "s") patient 1 (up ++ down) resting refl)
      (future_in resting) refl refl 40 false 2 5 77 none false pending refl refl refl

-- A child that is being stopped as unhealthy.
abbrev unhealthy : List Event
unhealthy = wait_msg ∷ up ++ poll_watch true pending ∷ []

-- All goes on to the end, through one more run; some events come too early to count.
abbrev slow : List Event
slow =
    handle_daemon
    ∷ look_at_end
    ∷ poll_daemon 41 false
    ∷ child_gone
    ∷ wait_msg
    ∷ poll_daemon 42 false
    ∷ poll_daemon 44 true
    ∷ poll_daemon 44 false
    ∷ handle_run 5
    ∷ poll_watch false pending
    ∷ child_gone
    ∷ poll_daemon 45 false
    ∷ []

terminate_ends_example :
    Ensures IsEnded
      (run build_uri spawn signal_name (terminate_msg ∷ slow) (reached patient unhealthy))
unfolding reached health_config
terminate_ends_example =
    terminate_ends build_uri spawn signal_name patient (none, refl) 77 refl (codes "s") 1 unhealthy
      slow (reached patient unhealthy) refl (λ e. cc)
      (advances handled (
        advances looked_at (
          also (
            advances stopped (
              also (
                advances ends_round (
                  advances slept_well (
                    advances asks (
                      advances spawns
                        (advances signalled (advances gone (advances ends_last arrived))))))))))))
      (
        tt,
        (
          tt,
          (
            omega arith,
            (
              tt,
              (
                tt,
                (omega arith, (omega arith, (omega arith, (tt, (tt, (tt, (omega arith, tt))))))),
              ),
            ),
          ),
        ),
      )
