-- ===== src/Supervisor/Caretaker/Terminating.antt =====
-- How a caretaker of src/supervisor/caretaker.rs comes to its end after a stop signal.
pub mod Fairness
use blahaj.Prelude.{
  ℕ, suc, ◌≤◌, List, [], ◌∷◌, ◌≡◌, ◌≢◌, refl, ◌⊎◌, inl, inr, Bool, true, false, Option, none, some,
  Outcome, ok, panic, Ensures, All, Outcome-cases, subst, arith,
}
use blahaj.Prelude.Text.{Str}
use blahaj.Config.{Program}
use blahaj.Proxy.{Scheme}
use blahaj.Supervisor.Retry.{mark, evict}
use blahaj.Supervisor.Retry
use blahaj.Supervisor.Health.{HealthConfig}
use blahaj.Supervisor.Futs.{
  Poll, Waited, RepeatedActFut, FutureSlot, polling, waiting, empty, new_repeated, new_abort,
  poll_repeated, poll_abort,
}
use blahaj.Supervisor.Caretaker.{
  Command, build_command, new, started, handle_terminate, handle_wait, handle_set_health_state,
  broadcast_stopped,
}
use blahaj.Supervisor.Caretaker.Run.{
  health_config, Child, Receiver, RunResult, was_terminated, Spawned, spawned, after_watch,
  conclude, finish_run, one_round, daemon_future, finish_daemon, begin_run,
}
use blahaj.Supervisor.Caretaker.System.{
  Phase, asked, watching, resolved, stopping, reported, Daemon, unhandled, active, over, System,
  start, Event, handle_daemon, poll_daemon, handle_run, poll_watch, look_at_end, child_gone,
  terminate_msg, step, run,
}
use blahaj.Supervisor.Caretaker.Invariant.{IsSound, step-IsSound, run-IsSound}
use blahaj.Supervisor.Caretaker.Panics.{
  IsAwaited, IsLegal, IsRegular, IsWaited, step-IsAwaited, run-IsTimed,
}

-- How far the daemon is on its way to the end, once the stop signal was sent.
abbrev phase_rank : Phase → ℕ
phase_rank (resolved _) = 1
phase_rank (stopping was_terminated) = 8
phase_rank (stopping _) = 2
phase_rank (reported was_terminated) = 9
phase_rank (reported _) = 3
phase_rank (asked _) = 6
phase_rank (watching _) = 7

abbrev slot_rank : FutureSlot Phase → ℕ
slot_rank (polling phase) = phase_rank phase
slot_rank (waiting _) = 4
slot_rank empty = 5

abbrev pub rank : Daemon → ℕ
rank (unhandled _) = 0
rank (active future) = slot_rank future.fut
rank over = 10

-- The event that takes a daemon of some rank further.
pub data Advances : ℕ → Event → Type 0 where
  handled : Advances 0 handle_daemon
  looked_at : Advances 1 look_at_end
  stopped : Advances 2 child_gone
  ends_round : {now : ℕ} {slept : Bool} → Advances 3 (poll_daemon now slept)
  slept_well : {now : ℕ} → Advances 4 (poll_daemon now true)
  asks : {now : ℕ} {slept : Bool} → Advances 5 (poll_daemon now slept)
  spawns : {unhealthy_rx : Receiver} → Advances 6 (handle_run unhealthy_rx)
  signalled : {unhealthy : Bool} {wait : Poll Waited} → Advances 7 (poll_watch unhealthy wait)
  gone : Advances 8 child_gone
  ends_last : {now : ℕ} {slept : Bool} → Advances 9 (poll_daemon now slept)

module _ (build_uri : Scheme → Str → Str → Option Str) (spawn : Command → Spawned)
    (signal_name : ℕ → Option Str) where
  abbrev next : Event → System → Outcome System
  next = step build_uri spawn signal_name

  -- The sender of the stop signal is used once.
  pub step-stop_tx :
      (e : Event) (s t : System)
      → (s.actor.stop_tx ≡ false) ⊎ (e ≡ terminate_msg)
      → next e s ≡ ok t
      → t.actor.stop_tx ≡ false
  unfolding step handle_terminate handle_wait handle_set_health_state daemon_future new_repeated
      poll_repeated one_round finish_daemon broadcast_stopped begin_run new_abort poll_abort
      after_watch conclude finish_run
  step-stop_tx terminate_msg s t told moved = ground arith
  step-stop_tx _ s t told moved = ground arith

  module _ (s t : System) (sound : IsSound s) (stop : s.actor.stop_tx ≡ false) (child : Child)
      (config : Option HealthConfig)
      (spawnable : spawn (build_command s.actor.program) ≡ spawned child)
      (legal : health_config build_uri s.actor.program.http ≡ ok config) where
    -- No event takes the daemon back.
    pub step-rank : (e : Event) → next e s ≡ ok t → rank s.daemon ≤ rank t.daemon
    unfolding step daemon_future new_repeated poll_repeated one_round begin_run poll_abort
        after_watch conclude
    step-rank handle_daemon moved = ground (arith, sound)
    step-rank (poll_daemon now slept) moved = ground (arith, sound)
    step-rank (handle_run unhealthy_rx) moved = ground (arith, sound)
    step-rank (poll_watch unhealthy wait) moved = ground (arith, sound)
    step-rank look_at_end moved = ground (arith, sound)
    step-rank child_gone moved = ground (arith, sound)
    step-rank terminate_msg moved = ground (arith, sound)
    step-rank _ moved = ground (arith, sound)

    pub advance-rank :
        (k : ℕ) (e : Event)
        → Advances k e
        → next e s ≡ ok t
        → k ≤ rank s.daemon
        → suc k ≤ rank t.daemon
    unfolding step daemon_future new_repeated poll_repeated one_round begin_run poll_abort
        after_watch conclude
    advance-rank _ _ handled moved far = ground (arith, sound)
    advance-rank _ _ looked_at moved far = ground (arith, sound)
    advance-rank _ _ stopped moved far = ground (arith, sound)
    advance-rank _ _ ends_round moved far = ground (arith, sound)
    advance-rank _ _ slept_well moved far = ground (arith, sound)
    advance-rank _ _ asks moved far = ground (arith, sound)
    advance-rank _ _ spawns moved far = ground (arith, sound)
    advance-rank _ _ signalled moved far = ground (arith, sound)
    advance-rank _ _ gone moved far = ground (arith, sound)
    advance-rank _ _ ends_last moved far = ground (arith, sound)
