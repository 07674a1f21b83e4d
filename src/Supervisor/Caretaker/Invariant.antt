-- ===== src/Supervisor/Caretaker/Invariant.antt =====
-- What holds of a caretaker at work between two events (src/supervisor/caretaker.rs).
use blahaj.Prelude.{
  ℕ, List, [], ◌∷◌, ◌≡◌, ◌⊎◌, inl, inr, Bool, true, false, Option, none, Outcome, ok, Outcome-cases,
  is_some, subst, arith,
}
use blahaj.Prelude.Text.{Str}
use blahaj.Config.{Program}
use blahaj.Proxy.{Scheme}
use blahaj.Supervisor.Lifecycle.{HealthState, Lifecycle, starting, terminating, terminated, failed}
use blahaj.Supervisor.Futs.{
  Poll, Waited, new_repeated, new_abort, FutureSlot, polling, waiting, empty, poll_repeated,
  poll_abort,
}
use blahaj.Supervisor.Futs.Repeated.{Staged}
use blahaj.Supervisor.Caretaker.{
  CaretakerActor, new, started, Command, is_live, handle_terminate, handle_wait,
  handle_set_health_state, broadcast_stopped,
}
use blahaj.Supervisor.Caretaker.Run.{
  Receiver, Spawned, after_watch, conclude, finish_run, one_round, daemon_future, finish_daemon,
  begin_run,
}
use blahaj.Supervisor.Caretaker.System.{
  Phase, asked, watching, resolved, stopping, reported, Daemon, unhandled, active, over, System,
  start, Event, handle_daemon, poll_daemon, handle_run, poll_watch, look_at_end, child_gone,
  terminate_msg, wait_msg, set_health_msg, has_receiver, step, run,
}

-- The status that goes with a phase: none is given up while its daemon works.
abbrev pub PhaseStatus : Phase → Lifecycle → Bool → Type 0
PhaseStatus (asked _) status checked =
    (status ≡ terminated) ⊎ ((status ≡ starting) × (checked ≡ false))
PhaseStatus (watching _) status checked = is_live status ≡ true
PhaseStatus (resolved _) status checked = is_live status ≡ true
PhaseStatus (stopping _) status checked = status ≡ terminating
PhaseStatus (reported _) status checked = status ≡ terminated

abbrev pub SlotStatus : FutureSlot Phase → Lifecycle → Bool → Type 0
SlotStatus (polling phase) status checked = PhaseStatus phase status checked
SlotStatus (waiting _) status checked = status ≡ terminated
SlotStatus empty status checked = (status ≡ terminated) ⊎ ((status ≡ starting) × (checked ≡ false))

abbrev pub DaemonStatus : Daemon → Lifecycle → Bool → Type 0
DaemonStatus (unhandled _) status checked = (status ≡ starting) × (checked ≡ false)
DaemonStatus (active future) status checked = SlotStatus future.fut status checked
DaemonStatus over status checked = (status ≡ terminated) ⊎ (status ≡ failed)

abbrev pub Channels : Daemon → CaretakerActor → Type 0
Channels over actor = (actor.stop_tx ≡ false) × (actor.stopped_tx ≡ none)
Channels _ actor = is_some actor.stopped_tx ≡ true

abbrev pub StagedDaemon : Daemon → Type 0
StagedDaemon (active future) = Staged future.fut future.state
StagedDaemon _ = Unit

-- A future that watches a child has all its fields.
abbrev pub WholePhase : Phase → Type 0
WholePhase (watching fut) =
    (is_some fut.child ≡ true) × (is_some fut.stop_rx ≡ true) × (is_some fut.unhealthy_rx ≡ true)
WholePhase _ = Unit

abbrev pub WholeSlot : FutureSlot Phase → Type 0
WholeSlot (polling phase) = WholePhase phase
WholeSlot _ = Unit

abbrev pub WholeDaemon : Daemon → Type 0
WholeDaemon (active future) = WholeSlot future.fut
WholeDaemon _ = Unit

pub record IsSound (s : System) : Type 0 where
  pub staged : StagedDaemon s.daemon
  pub whole : WholeDaemon s.daemon
  pub heard : s.actor.stop_tx ≡ true → has_receiver s.daemon ≡ true
  pub channels : Channels s.daemon s.actor
  pub status : DaemonStatus s.daemon s.actor.status s.checked

ok_inj {ℓ} : {A : Type ℓ} {a b : A} → ◌≡◌ {A = Outcome A} (ok a) (ok b) → a ≡ b
ok_inj e = cc

pub start-IsSound :
    (name : Str) (program : Program) (stop_rx : Receiver) → IsSound (start name program stop_rx)
unfolding start started new has_receiver
start-IsSound name program stop_rx = ground arith

module _ (build_uri : Scheme → Str → Str → Option Str) (spawn : Command → Spawned)
    (signal_name : ℕ → Option Str) where
  abbrev next : Event → System → Outcome System
  next = step build_uri spawn signal_name

  module _ (s t : System) (sound : IsSound s) where
    terminate-IsSound : next terminate_msg s ≡ ok t → IsSound t
    unfolding step handle_terminate has_receiver
    terminate-IsSound e = ground arith

    wait-IsSound : next wait_msg s ≡ ok t → IsSound t
    unfolding step handle_wait has_receiver
    wait-IsSound e = ground arith

    set_health-IsSound : (state : HealthState) → next (set_health_msg state) s ≡ ok t → IsSound t
    unfolding step handle_set_health_state has_receiver
    set_health-IsSound state e = ground arith

    handle_daemon-IsSound : next handle_daemon s ≡ ok t → IsSound t
    unfolding step daemon_future new_repeated has_receiver
    handle_daemon-IsSound e = ground arith

    poll_daemon-IsSound :
        (now : ℕ) (slept : Bool) → next (poll_daemon now slept) s ≡ ok t → IsSound t
    unfolding step poll_repeated one_round finish_daemon broadcast_stopped has_receiver
    poll_daemon-IsSound now slept e = ground arith

    handle_run-IsSound :
        (unhealthy_rx : Receiver) → next (handle_run unhealthy_rx) s ≡ ok t → IsSound t
    unfolding step begin_run new_abort has_receiver
    handle_run-IsSound unhealthy_rx e = ground arith

    poll_watch-IsSound :
        (unhealthy : Bool) (wait : Poll Waited)
        → next (poll_watch unhealthy wait) s ≡ ok t
        → IsSound t
    unfolding step poll_abort after_watch conclude finish_run has_receiver
    poll_watch-IsSound unhealthy wait e = ground arith

    look_at_end-IsSound : next look_at_end s ≡ ok t → IsSound t
    unfolding step after_watch conclude finish_run has_receiver
    look_at_end-IsSound e = ground arith

    child_gone-IsSound : next child_gone s ≡ ok t → IsSound t
    unfolding step finish_run has_receiver
    child_gone-IsSound e = ground arith

  pub step-IsSound : (event : Event) (s t : System) → IsSound s → next event s ≡ ok t → IsSound t
  step-IsSound terminate_msg s t sound = terminate-IsSound s t sound
  step-IsSound wait_msg s t sound = wait-IsSound s t sound
  step-IsSound (set_health_msg state) s t sound = set_health-IsSound s t sound state
  step-IsSound handle_daemon s t sound = handle_daemon-IsSound s t sound
  step-IsSound (poll_daemon now slept) s t sound = poll_daemon-IsSound s t sound now slept
  step-IsSound (handle_run unhealthy_rx) s t sound = handle_run-IsSound s t sound unhealthy_rx
  step-IsSound (poll_watch unhealthy wait) s t sound = poll_watch-IsSound s t sound unhealthy wait
  step-IsSound look_at_end s t sound = look_at_end-IsSound s t sound
  step-IsSound child_gone s t sound = child_gone-IsSound s t sound

  -- An invariant that each step keeps holds after any run.
  pub run-invariant :
      (P : System → Type 0)
      → ((event : Event) (s t : System) → P s → next event s ≡ ok t → P t)
      → (events : List Event) (s t : System) → P s
      → run build_uri spawn signal_name events s ≡ ok t
      → P t
  unfolding run
  run-invariant P keep [] s t h e = subst P (ok_inj e) h
  run-invariant P keep (event ∷ events) s t h e = elim (Outcome-cases (next event s)) [
    | inl panics ↦ cc (rw (panics, run) at e)
    | inr (u, moved) ↦
        run-invariant P keep events u t (keep event s u h moved) (rw (moved, run) at e)
  ]

  -- After any events the state of the daemon's future is staged and the future that watches a child
  -- has all its fields, the stop signal can be heard while its sender is there,
  -- the two channels are gone exactly when the daemon is done, and the status fits the daemon's
  -- phase.
  pub run-IsSound :
      (name : Str) (program : Program) (stop_rx : Receiver) (events : List Event) (t : System)
      → run build_uri spawn signal_name events (start name program stop_rx) ≡ ok t
      → IsSound t
  run-IsSound name program stop_rx events t =
      run-invariant IsSound step-IsSound events _ t (start-IsSound name program stop_rx)
