-- ===== src/Supervisor/Caretaker/Transitions.antt =====
-- The order in which a program's states follow one another (src/supervisor/caretaker.rs).
use blahaj.Prelude.{ℕ, List, ◌≡◌, Bool, true, false, Option, ok, arith}
use blahaj.Prelude.Text.{Str}
use blahaj.Config.{Program}
use blahaj.Proxy.{Scheme}
use blahaj.Supervisor.Lifecycle.{
  HealthState, unknown, Lifecycle, starting, running, terminating, terminated, failed,
}
use blahaj.Supervisor.Futs.{poll_repeated, poll_abort}
use blahaj.Supervisor.Caretaker.{
  Command, handle_terminate, handle_wait, handle_set_health_state, broadcast_stopped,
}
use blahaj.Supervisor.Caretaker.Run.{
  Receiver, Spawned, after_watch, conclude, finish_run, one_round, daemon_future, finish_daemon,
  begin_run,
}
use blahaj.Supervisor.Caretaker.System.{System, start, Event, terminate_msg, wait_msg, step, run}
use blahaj.Supervisor.Caretaker.Invariant.{IsSound, run-IsSound}

abbrev is_unknown : HealthState → Bool
is_unknown unknown = true
is_unknown _ = false

-- A program that is starting or running may run, be stopped or die; one that is being stopped dies;
-- one that is dead starts again (its health unknown, if it is checked at once) or is given up; and
-- nothing follows on that.
abbrev pub may_follow : Lifecycle → Lifecycle → Bool
may_follow starting failed = false
may_follow starting _ = true
may_follow (running _) (running _) = true
may_follow (running _) terminating = true
may_follow (running _) terminated = true
may_follow (running _) _ = false
may_follow terminating terminating = true
may_follow terminating terminated = true
may_follow terminating _ = false
may_follow terminated terminated = true
may_follow terminated starting = true
may_follow terminated (running health) = is_unknown health
may_follow terminated failed = true
may_follow terminated terminating = false
may_follow failed failed = true
may_follow failed _ = false

module _ (build_uri : Scheme → Str → Str → Option Str) (spawn : Command → Spawned)
    (signal_name : ℕ → Option Str) where
  sound-may_follow :
      (event : Event) (s t : System)
      → IsSound s
      → step build_uri spawn signal_name event s ≡ ok t
      → may_follow s.actor.status t.actor.status ≡ true
  unfolding step handle_terminate handle_wait handle_set_health_state daemon_future poll_repeated
      finish_daemon broadcast_stopped begin_run after_watch conclude finish_run poll_abort one_round
  sound-may_follow terminate_msg s t sound e = ground arith
  sound-may_follow wait_msg s t sound e = ground arith
  sound-may_follow _ s t sound e = ground arith

  -- After any events, what happens next leaves the status as it is or takes it to one that may
  -- follow.
  pub step-may_follow :
      (name : Str) (program : Program) (stop_rx : Receiver) (events : List Event) (event : Event)
      (s t : System)
      → run build_uri spawn signal_name events (start name program stop_rx) ≡ ok s
      → step build_uri spawn signal_name event s ≡ ok t
      → may_follow s.actor.status t.actor.status ≡ true
  step-may_follow name program stop_rx events event s t e =
      sound-may_follow event s t
        (run-IsSound build_uri spawn signal_name name program stop_rx events s e)
