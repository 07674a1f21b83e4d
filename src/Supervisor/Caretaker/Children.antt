-- ===== src/Supervisor/Caretaker/Children.antt =====
-- The children that a caretaker of src/supervisor/caretaker.rs has.
mod Tests
use blahaj.Prelude.{
  ℕ, ◌+◌, ◌≤◌, List, [], ◌∷◌, ◌≡◌, refl, ◌⊎◌, inl, inr, not, Option, none, some, Outcome, ok, panic,
  Outcome-cases, arith,
}
use blahaj.Prelude.Text.{Str}
use blahaj.Config.{Program}
use blahaj.Proxy.{Scheme}
use blahaj.Supervisor.Futs.{
  Poll, ready, pending, Waited, WaitAbortFut, WaitAbortResult, exit, exit_with_error,
  stop_signal_received, unhealthy_signal_received, poll_repeated, poll_abort, new_repeated,
  new_abort,
}
use blahaj.Supervisor.Caretaker.{
  Command, build_command, handle_terminate, handle_wait, handle_set_health_state, broadcast_stopped,
}
use blahaj.Supervisor.Caretaker.Run.{
  Child, Receiver, SpawnRunOutput, success, Spawned, spawned, not_spawned, begin_run, after_watch,
  conclude, finish_run, one_round, daemon_future, finish_daemon,
}
use blahaj.Supervisor.Caretaker.System.{
  Phase, asked, watching, resolved, stopping, Daemon, over, System, start, Event, handle_run,
  poll_watch, look_at_end, child_gone, terminate_msg, wait_msg, set_health_msg, daemon_phase, step,
  run,
}
use blahaj.Supervisor.Caretaker.Invariant.{IsSound, step-IsSound, start-IsSound}

-- What the watching came to may hold the child, which is then to be stopped.
abbrev pub held : SpawnRunOutput → ℕ
held (success (stop_signal_received _)) = 1
held (success (unhealthy_signal_received _ _)) = 1
held _ = 0

-- How many children a run has: the one that is watched, or the one that is being stopped.
abbrev pub children_of : Option Phase → ℕ
children_of (some (watching _)) = 1
children_of (some (resolved output)) = held output
children_of (some (stopping _)) = 1
children_of _ = 0

abbrev pub children : System → ℕ
children s = children_of (daemon_phase s.daemon)

-- The end of a child that the watching finds.
abbrev exits_in : Outcome (WaitAbortFut Child Receiver × Poll (WaitAbortResult Child Receiver)) → ℕ
exits_in (ok (_, ready (exit _))) = 1
exits_in (ok (_, ready (exit_with_error _ _))) = 1
exits_in _ = 0

module _ (build_uri : Scheme → Str → Str → Option Str) (spawn : Command → Spawned)
    (signal_name : ℕ → Option Str) where
  abbrev next : Event → System → Outcome System
  next = step build_uri spawn signal_name

  -- The children that an event spawns.
  abbrev pub spawns : Event → System → ℕ
  spawns (handle_run _) s = elim (daemon_phase s.daemon) [
    | some phase ↦ elim phase [
      | asked _ ↦ elim (spawn (build_command s.actor.program)) [ spawned _ ↦ 1 | not_spawned _ ↦ 0 ]
      | _ ↦ 0
    ]
    | none ↦ 0
  ]
  spawns _ s = 0

  -- The children that an event finds to have ended, by themselves or since they were stopped.
  abbrev pub ends : Event → System → ℕ
  ends (poll_watch unhealthy wait) s = elim (daemon_phase s.daemon) [
    | some phase ↦ elim phase [
      | watching fut ↦ exits_in (
          poll_abort signal_name
            (record { stop = not s.actor.stop_tx; unhealthy = unhealthy; wait = wait }) fut)
      | _ ↦ 0
    ]
    | none ↦ 0
  ]
  ends child_gone s = elim (daemon_phase s.daemon) [
    | some phase ↦ elim phase [ stopping _ ↦ 1 | _ ↦ 0 ]
    | none ↦ 0
  ]
  ends _ s = 0

  step-children :
      (e : Event) (s t : System) → next e s ≡ ok t → spawns e s + children s ≡ ends e s + children t
  unfolding step handle_terminate handle_wait handle_set_health_state daemon_future new_repeated
      poll_repeated one_round finish_daemon broadcast_stopped begin_run new_abort poll_abort
      after_watch conclude finish_run
  step-children (poll_watch unhealthy wait) s t moved = ground arith
  step-children child_gone s t moved = ground arith
  step-children (handle_run rx) s t moved = ground arith
  step-children terminate_msg s t moved = ground arith
  step-children _ s t moved = ground arith

  -- How many children some events spawn and end in all, until the caretaker panics.
  abbrev pub total : (Event → System → ℕ) → List Event → System → ℕ
  total count [] s = 0
  total count (e ∷ events) s =
      count e s + elim (next e s) [ ok t ↦ total count events t | panic ↦ 0 ]

  run-children :
      (events : List Event) (s t : System)
      → run build_uri spawn signal_name events s ≡ ok t
      → total spawns events s + children s ≡ total ends events s + children t
  unfolding run
  run-children [] s t e = ground (arith, e)
  run-children (event ∷ events) s t e = elim (Outcome-cases (next event s)) [
    | inl panics ↦ cc (rw (panics, run) at e)
    | inr (u, moved) ↦
        let here = step-children event s u moved in
        let later = run-children events u t (rw (moved, run) at e) in rw (moved) (omega arith)
  ]

  -- A caretaker has at most one child at a time: after any events, those that it spawned are those
  -- that ended, by themselves or since they were stopped, and the one that its run has, if it has one.
  -- Once the daemon is done, none is left.
  pub one_child :
      (name : Str) (program : Program) (stop_rx : Receiver) (events : List Event) (t : System)
      → run build_uri spawn signal_name events (start name program stop_rx) ≡ ok t
      → (total spawns events (start name program stop_rx)
          ≡ total ends events (start name program stop_rx) + children t)
        × (children t ≤ 1)
        × (t.daemon ≡ over → children t ≡ 0)
  unfolding start
  one_child name program stop_rx events t e = (
    ground (arith, run-children events (start name program stop_rx) t e),
    ground arith,
    ground arith,
  )
