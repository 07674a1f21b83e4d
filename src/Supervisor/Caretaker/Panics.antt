-- ===== src/Supervisor/Caretaker/Panics.antt =====
-- When a caretaker at work does not panic (src/supervisor/caretaker.rs with futs.rs and retry.rs).
mod Tests
use blahaj.Prelude.{
  ℕ, ◌≤◌, List, [], ◌∷◌, ◌≡◌, ◌≢◌, refl, ◌⊎◌, inl, inr, Option, none, some, Outcome, ok, panic,
  Ensures, All, Bool, Outcome-cases, subst, arith,
}
use blahaj.Prelude.Text.{Str}
use blahaj.Config.{Program}
use blahaj.Proxy.{Scheme}
use blahaj.Supervisor.Lifecycle.{HealthState}
use blahaj.Supervisor.Retry
use blahaj.Supervisor.Health.{HealthConfig}
use blahaj.Supervisor.Retry.{mark, evict}
use blahaj.Supervisor.Futs.{
  Poll, ready, pending, Waited, status, failed, new_repeated, new_abort, poll_repeated, poll_abort,
}
use blahaj.Supervisor.Futs.Abort.{Cause, exits, killed, IsCause, word_of}
use blahaj.Supervisor.Caretaker.{
  CaretakerActor, new, started, Command, handle_terminate, handle_wait, handle_set_health_state,
  broadcast_stopped,
}
use blahaj.Supervisor.Caretaker.Run.{
  Receiver, Spawned, after_watch, conclude, finish_run, one_round, daemon_future, finish_daemon,
  begin_run, health_config,
}
use blahaj.Supervisor.Caretaker.System.{
  Daemon, unhandled, active, over, System, start, Event, handle_daemon, poll_daemon, handle_run,
  poll_watch, look_at_end, child_gone, terminate_msg, wait_msg, set_health_msg, has_receiver, step,
  run,
}
use blahaj.Supervisor.Caretaker.Invariant.{
  IsSound, start-IsSound, step-IsSound, run-IsSound, run-invariant,
}

-- The guard of a daemon's future counts in the window of the program.
abbrev pub DaemonWindow : Daemon → ℕ → Type 0
DaemonWindow (active future) window = future.retry_guard.tolerance_interval ≡ window
DaemonWindow _ window = Unit

pub record IsTimed (program : Program) (s : System) : Type 0 where
  pub same_program : s.actor.program ≡ program
  pub window : DaemonWindow s.daemon program.retry.window

-- The status word is one that a process ends with.
abbrev pub IsWaited : Poll Waited → Type 0
IsWaited (ready (status word)) = (c : Cause) × IsCause c × (word ≡ word_of c)
IsWaited _ = Unit

-- What the surroundings do in an event is what they can be relied on to do: the clock reads a time
-- that is not below the program's window, and a child ends with a status word.
abbrev pub IsRegular : Program → Event → Type 0
IsRegular program (poll_daemon now slept) = program.retry.window ≤ now
IsRegular program (poll_watch unhealthy wait) = IsWaited wait
IsRegular program _ = Unit

module _ (build_uri : Scheme → Str → Str → Option Str) (spawn : Command → Spawned)
    (signal_name : ℕ → Option Str) (program : Program) where
  abbrev next : Event → System → Outcome System
  next = step build_uri spawn signal_name

  -- A `Wait` was handled, or the daemon is done; the window of the guard is the program's.
  pub record IsAwaited (s : System) : Type 0 where
    pub timed : IsTimed program s
    pub awaited : s.actor.stopped_tx ≢ some 0

  module _ (s : System) (sound : IsSound s) (safe : IsAwaited s) where
    safe-terminate : Ensures IsAwaited (next terminate_msg s)
    unfolding step handle_terminate
    safe-terminate = ground (arith, sound)

    safe-wait : Ensures IsAwaited (next wait_msg s)
    unfolding step handle_wait
    safe-wait = ground arith

    safe-set_health : (state : HealthState) → Ensures IsAwaited (next (set_health_msg state) s)
    unfolding step handle_set_health_state
    safe-set_health state = ground arith

    safe-handle_daemon : Ensures IsAwaited (next handle_daemon s)
    unfolding step daemon_future new_repeated Retry.new
    safe-handle_daemon = ground arith

    safe-poll_daemon :
        (now : ℕ) (slept : Bool)
        → program.retry.window ≤ now
        → Ensures IsAwaited (next (poll_daemon now slept) s)
    unfolding step poll_repeated mark evict one_round finish_daemon broadcast_stopped
    safe-poll_daemon now slept late = ground (arith, sound)

    safe-handle_run :
        (config : Option HealthConfig) (unhealthy_rx : Receiver)
        → health_config build_uri program.http ≡ ok config
        → Ensures IsAwaited (next (handle_run unhealthy_rx) s)
    unfolding step begin_run new_abort
    safe-handle_run config unhealthy_rx legal = ground arith

    safe-poll_watch :
        (unhealthy : Bool) (wait : Poll Waited)
        → IsWaited wait
        → Ensures IsAwaited (next (poll_watch unhealthy wait) s)
    unfolding step poll_abort after_watch conclude finish_run
    safe-poll_watch unhealthy wait w = ground (arith, sound)

    safe-look_at_end : Ensures IsAwaited (next look_at_end s)
    unfolding step after_watch conclude finish_run
    safe-look_at_end = ground arith

    safe-child_gone : Ensures IsAwaited (next child_gone s)
    unfolding step finish_run
    safe-child_gone = ground arith

  pub step-IsTimed :
      (event : Event) (s t : System) → IsTimed program s → next event s ≡ ok t → IsTimed program t
  unfolding step handle_terminate handle_wait handle_set_health_state daemon_future new_repeated
      Retry.new poll_repeated mark evict one_round finish_daemon broadcast_stopped begin_run
      new_abort poll_abort after_watch conclude finish_run
  step-IsTimed terminate_msg s t timed e = ground arith
  step-IsTimed _ s t timed e = ground arith

  pub start-IsTimed :
      (name : Str) (stop_rx : Receiver) → IsTimed program (start name program stop_rx)
  unfolding start started new
  start-IsTimed name stop_rx = ground arith

  pub run-IsTimed :
      (name : Str) (stop_rx : Receiver) (events : List Event) (s : System)
      → run build_uri spawn signal_name events (start name program stop_rx) ≡ ok s
      → IsTimed program s
  run-IsTimed name stop_rx events s =
      run-invariant build_uri spawn signal_name (IsTimed program) step-IsTimed events _ s
        (start-IsTimed name stop_rx)

  pub wait-IsAwaited : (s : System) → IsTimed program s → Ensures IsAwaited (next wait_msg s)
  unfolding step handle_wait
  wait-IsAwaited s timed = ground arith

  -- The Uri of the program's health check can be built.
  abbrev pub IsLegal : Type 0
  IsLegal = (config : Option HealthConfig) × (health_config build_uri program.http ≡ ok config)

  module _ (legal : IsLegal) where
    pub step-IsAwaited :
        (event : Event) (s : System)
        → IsSound s
        → IsAwaited s
        → IsRegular program event
        → Ensures IsAwaited (next event s)
    step-IsAwaited terminate_msg s sound safe r = safe-terminate s sound safe
    step-IsAwaited wait_msg s sound safe r = safe-wait s sound safe
    step-IsAwaited (set_health_msg state) s sound safe r = safe-set_health s sound safe state
    step-IsAwaited handle_daemon s sound safe r = safe-handle_daemon s sound safe
    step-IsAwaited (poll_daemon now slept) s sound safe r =
        safe-poll_daemon s sound safe now slept r
    step-IsAwaited (handle_run unhealthy_rx) s sound safe r =
        safe-handle_run s sound safe legal.0 unhealthy_rx legal.1
    step-IsAwaited (poll_watch unhealthy wait) s sound safe r =
        safe-poll_watch s sound safe unhealthy wait r
    step-IsAwaited look_at_end s sound safe r = safe-look_at_end s sound safe
    step-IsAwaited child_gone s sound safe r = safe-child_gone s sound safe

    run-IsAwaited :
        (events : List Event) (s : System)
        → IsSound s
        → IsAwaited s
        → All (IsRegular program) events
        → run build_uri spawn signal_name events s ≢ panic
    unfolding run
    run-IsAwaited [] s sound safe h e = cc
    run-IsAwaited (event ∷ events) s sound safe (r, h) e = elim (Outcome-cases (next event s)) [
      | inl panics ↦ subst (Ensures IsAwaited) panics (step-IsAwaited event s sound safe r)
      | inr (t, moved) ↦
          run-IsAwaited events t (step-IsSound build_uri spawn signal_name event s t sound moved)
            (subst (Ensures IsAwaited) moved (step-IsAwaited event s sound safe r)) h
            (rw (moved, run) at e)
    ]

    -- A caretaker that handles a `Wait` does not panic from then on, whatever happens in whatever
    -- order: where the Uri of the program's health check can be built, the clock reads no time below
    -- the program's window, and a child ends with a status word.
    pub awaited_no_panic :
        (name : Str) (stop_rx : Receiver) (events later : List Event) (s : System)
        → run build_uri spawn signal_name events (start name program stop_rx) ≡ ok s
        → All (IsRegular program) later
        → run build_uri spawn signal_name (wait_msg ∷ later) s ≢ panic
    unfolding run
    awaited_no_panic name stop_rx events later s e h panics =
        let sound = run-IsSound build_uri spawn signal_name name program stop_rx events s e in
        let timed = run-IsTimed name stop_rx events s e in
        elim (Outcome-cases (next wait_msg s)) [
          | inl stuck ↦ subst (Ensures IsAwaited) stuck (wait-IsAwaited s timed)
          | inr (t, moved) ↦
              run-IsAwaited later t
                (step-IsSound build_uri spawn signal_name wait_msg s t sound moved)
                (subst (Ensures IsAwaited) moved (wait-IsAwaited s timed)) h
                (rw (moved, run) at panics)
        ]
