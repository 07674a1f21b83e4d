-- ===== src/Supervisor/Caretaker/System.antt =====
-- A caretaker at work (src/supervisor/caretaker.rs with futs.rs): its state, its daemon, and the
-- run that the daemon's future polls, as a function of what happens next.
use blahaj.Prelude.{
  ℕ, List, [], ◌∷◌, Bool, true, false, not, Option, none, some, Outcome, ok, ◌>>=◌, if◌then◌else◌,
  is_some,
}
use blahaj.Prelude.Text.{Str}
use blahaj.Config.{Program}
use blahaj.Proxy.{Scheme}
use blahaj.Supervisor.Lifecycle.{HealthState}
use blahaj.Supervisor.Futs.{
  Poll, ready, pending, FutureSlot, polling, RepeatedActFut, poll_repeated, Polled, WaitAbortFut,
  WaitAbortResult, Waited, new_abort, poll_abort,
}
use blahaj.Supervisor.Caretaker.{
  CaretakerActor, Command, new, started, handle_wait, handle_terminate, handle_set_health_state,
}
use blahaj.Supervisor.Caretaker.Run.{
  Child, Receiver, RunResult, SpawnRunOutput, success, Spawned, Begun, watch, give_back, begin_run,
  after_watch, conclude, finish_run, one_round, daemon_future, finish_daemon,
}

-- Where a run is: its message is sent, its child is watched, its spawning failed and is yet to be
-- polled, its child is being stopped, or its result is on its way to the daemon.
pub data Phase : Type 0 where
  asked : Receiver → Phase
  watching : WaitAbortFut Child Receiver → Phase
  resolved : SpawnRunOutput → Phase
  stopping : RunResult → Phase
  reported : RunResult → Phase

-- The daemon: its message is not handled yet, its future is polled, or its future is done.
pub data Daemon : Type 0 where
  unhandled : Receiver → Daemon
  active : RepeatedActFut Phase Receiver → Daemon
  over : Daemon

-- `checked`: whether a health actor was ever started.
pub record System : Type 0 where
  pub actor : CaretakerActor
  pub daemon : Daemon
  pub checked : Bool

-- The phase of the run that the daemon waits for.
abbrev phase_of : FutureSlot Phase → Option Phase
phase_of (polling phase) = some phase
phase_of _ = none

abbrev pub daemon_phase : Daemon → Option Phase
daemon_phase (active future) = phase_of future.fut
daemon_phase _ = none

abbrev pub is_watching : Option Phase → Bool
is_watching (some (watching _)) = true
is_watching _ = false

abbrev pub is_asked : Option Phase → Option Receiver
is_asked (some (asked stop_rx)) = some stop_rx
is_asked _ = none

-- The actor as `started` leaves it: `Daemon` waits with the receiver of the stop signal.
unfoldable pub start : Str → Program → Receiver → System
start name program stop_rx = record {
  actor = started (new name program);
  daemon = unhandled stop_rx;
  checked = false;
}

pub data Event : Type 0 where
  handle_daemon : Event
  poll_daemon : ℕ → Bool → Event
  handle_run : Receiver → Event
  poll_watch : Bool → Poll Waited → Event
  look_at_end : Event
  child_gone : Event
  terminate_msg wait_msg : Event
  set_health_msg : HealthState → Event

-- Whether the receiver of the stop signal is still somewhere. A future that is watched has it.
abbrev has_receiver_result : RunResult → Bool
has_receiver_result RunResult.was_terminated = false
has_receiver_result _ = true

abbrev has_receiver_output : SpawnRunOutput → Bool
has_receiver_output (success (WaitAbortResult.stop_signal_received _)) = false
has_receiver_output _ = true

abbrev has_receiver_phase : Phase → Bool
has_receiver_phase (asked _) = true
has_receiver_phase (watching fut) = is_some fut.stop_rx
has_receiver_phase (resolved output) = has_receiver_output output
has_receiver_phase (stopping result) = has_receiver_result result
has_receiver_phase (reported result) = has_receiver_result result

abbrev has_receiver_slot : FutureSlot Phase → Option Receiver → Bool
has_receiver_slot (polling phase) state = has_receiver_phase phase
has_receiver_slot _ state = is_some state

unfoldable pub has_receiver : Daemon → Bool
has_receiver (unhandled _) = true
has_receiver (active future) = has_receiver_slot future.fut future.state
has_receiver over = false

-- What the run's future answers to the daemon's.
pub inner_answer : Str → FutureSlot Phase → Poll (Option Receiver)
inner_answer name (polling (reported result)) = ready (one_round name result).1
inner_answer name _ = pending

module _ (build_uri : Scheme → Str → Str → Option Str) (spawn : Command → Spawned)
    (signal_name : ℕ → Option Str) where
  after_poll : System → Polled Phase Receiver → Outcome System
  after_poll s p = elim p.answer [
    | pending ↦ ok (record s { daemon = active p.after })
    | ready res ↦ do
      actor ← finish_daemon res s.actor
      ok (record s { actor = actor; daemon = over })
  ]

  poll_future : ℕ → Bool → System → RepeatedActFut Phase Receiver → Outcome System
  unfolding after_poll inner_answer
  poll_future now slept s future = do
    p ←
        poll_repeated asked
          (record { now = now; inner = inner_answer s.actor.name future.fut; slept = slept }) future
    after_poll s p

  -- The run of a daemon moves on to a phase.
  abbrev to_phase : RepeatedActFut Phase Receiver → Phase → Daemon
  to_phase future phase = active (record future { fut = polling phase })

  -- The handler of `Run`, with the receiver of the unhealthy signal that it makes.
  begun :
      System → RepeatedActFut Phase Receiver → Receiver → Receiver → CaretakerActor × Begun → System
  begun s future stop_rx unhealthy_rx (actor, watch child config) = record s {
    actor = actor;
    daemon = to_phase future (watching (new_abort child stop_rx unhealthy_rx));
    checked = true;
  }
  begun s future stop_rx unhealthy_rx (actor, give_back output) = record s {
    actor = actor;
    daemon = to_phase future (resolved output);
  }

  run_asked : Receiver → System → RepeatedActFut Phase Receiver → Phase → Outcome System
  unfolding begun
  run_asked unhealthy_rx s future (asked stop_rx) = do
    result ← begin_run build_uri spawn stop_rx s.actor
    ok (begun s future stop_rx unhealthy_rx result)
  run_asked unhealthy_rx s future _ = ok s

  -- The polls behind the watching: the status, then the result, at once if there is no child to stop.
  end_seen : System → RepeatedActFut Phase Receiver → Phase → System
  end_seen s future (resolved output) =
      let actor = after_watch output s.actor in
      let (result, child) = conclude output in
      elim child [
        | none ↦ record s { actor = finish_run actor; daemon = to_phase future (reported result) }
        | some _ ↦ record s { actor = actor; daemon = to_phase future (stopping result) }
      ]
  end_seen s future _ = s

  watched :
      System
      → RepeatedActFut Phase Receiver
      → WaitAbortFut Child Receiver × Poll (WaitAbortResult Child Receiver)
      → System
  unfolding end_seen
  watched s future (fut, pending) = record s { daemon = to_phase future (watching fut) }
  watched s future (fut, ready result) = end_seen s future (resolved (success result))

  -- The channel of the stop signal is ready once its sender is gone: used, or dropped.
  watch_child : Bool → Poll Waited → System → RepeatedActFut Phase Receiver → Phase → Outcome System
  unfolding watched
  watch_child unhealthy wait s future (watching fut) = do
    result ←
        poll_abort signal_name
          (record { stop = not s.actor.stop_tx; unhealthy = unhealthy; wait = wait }) fut
    ok (watched s future result)
  watch_child unhealthy wait s future _ = ok s

  run_ended : System → RepeatedActFut Phase Receiver → Phase → System
  run_ended s future (stopping result) = record s {
    actor = finish_run s.actor;
    daemon = to_phase future (reported result);
  }
  run_ended s future _ = s

  on_phase : Event → System → RepeatedActFut Phase Receiver → Phase → Outcome System
  unfolding run_asked watch_child end_seen run_ended
  on_phase (handle_run unhealthy_rx) s future phase = run_asked unhealthy_rx s future phase
  on_phase (poll_watch unhealthy wait) s future phase = watch_child unhealthy wait s future phase
  on_phase look_at_end s future phase = ok (end_seen s future phase)
  on_phase child_gone s future phase = ok (run_ended s future phase)
  on_phase _ s future phase = ok s

  on_slot : Event → System → RepeatedActFut Phase Receiver → FutureSlot Phase → Outcome System
  unfolding on_phase
  on_slot event s future (polling phase) = on_phase event s future phase
  on_slot event s future _ = ok s

  on_daemon : Event → System → Daemon → Outcome System
  unfolding poll_future on_slot
  on_daemon handle_daemon s (unhandled stop_rx) =
      ok (record s { daemon = active (daemon_future stop_rx s.actor) })
  on_daemon (poll_daemon now slept) s (active future) = poll_future now slept s future
  on_daemon event s (active future) = on_slot event s future future.fut
  on_daemon _ s _ = ok s

  -- What happens next. What cannot happen in a state changes nothing.
  unfoldable pub step : Event → System → Outcome System
  unfolding on_daemon
  step terminate_msg s = do
    actor ← handle_terminate (has_receiver s.daemon) s.actor
    ok (record s { actor = actor })
  step wait_msg s = ok (record s { actor = (handle_wait s.actor).0 })
  step (set_health_msg state) s =
      ok (if s.checked then record s { actor = handle_set_health_state state s.actor } else s)
  step event s = on_daemon event s s.daemon

  unfoldable pub run : List Event → System → Outcome System
  run [] s = ok s
  run (event ∷ events) s = do next ← step event s; run events next
