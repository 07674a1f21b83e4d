-- ===== src/Supervisor/Caretaker/Endings.antt =====
-- How the work of a caretaker ends (src/supervisor/caretaker.rs).
use blahaj.Prelude.{
  ℕ, List, [], ◌∷◌, ◌++◌, ◌≡◌, ◌≢◌, refl, ◌⊎◌, inl, inr, Bool, true, false, Option, none, some,
  Outcome, ok, panic, Outcome-cases, Ensures, All, arith,
}
use blahaj.Prelude.Text.{Str}
use blahaj.Config.{Program}
use blahaj.Proxy.{Scheme}
use blahaj.Supervisor.Lifecycle.{terminated, failed}
use blahaj.Supervisor.Futs.{
  Poll, ready, Polled, Waited, new_abort, polling, waiting, RepeatedActFut, WaitAbortFut,
  poll_repeated, poll_abort,
}
use blahaj.Supervisor.Caretaker.{
  new, started, Command, build_command, handle_terminate, handle_wait, handle_set_health_state,
  broadcast_stopped,
}
use blahaj.Supervisor.Caretaker.Run.{
  Child, Receiver, Spawned, spawned, after_watch, conclude, finish_run, one_round, daemon_future,
  finish_daemon, begin_run, health_config,
}
use blahaj.Supervisor.Health.{HealthConfig}
use blahaj.Supervisor.Caretaker.System.{
  Phase, asked, watching, Daemon, active, over, System, start, Event, poll_daemon, handle_run,
  poll_watch, child_gone, terminate_msg, wait_msg, set_health_msg, has_receiver, inner_answer, step,
  run,
}
use blahaj.Supervisor.Caretaker.Invariant.{IsSound, run-IsSound}

-- The child that a daemon watches.
abbrev pub watched_child : Daemon → Option Child
watched_child (active future) = elim future.fut [
  | polling phase ↦ elim phase [ watching fut ↦ fut.child | _ ↦ none ]
  | _ ↦ none
]
watched_child _ = none

module _ (build_uri : Scheme → Str → Str → Option Str) (spawn : Command → Spawned)
    (signal_name : ℕ → Option Str) where
  abbrev next : Event → System → Outcome System
  next = step build_uri spawn signal_name

  abbrev after : List Event → System → Outcome System
  after = run build_uri spawn signal_name

  -- At any time, `Terminate` finds the receiver of the stop signal if it finds the sender, and so
  -- does not panic.
  pub terminate_no_panic :
      (name : Str) (program : Program) (stop_rx : Receiver) (events : List Event) (s : System)
      → after events (start name program stop_rx) ≡ ok s
      → next terminate_msg s ≢ panic
  unfolding step handle_terminate
  terminate_no_panic name program stop_rx events s e =
      let sound = run-IsSound build_uri spawn signal_name name program stop_rx events s e in
      ground (arith, sound)

  pub step-over :
      (event : Event) (s : System)
      → s.daemon ≡ over
      → s.actor.stop_tx ≡ false
      → s.actor.stopped_tx ≡ none
      → (s.actor.status ≡ terminated) ⊎ (s.actor.status ≡ failed)
      → next event s ≡ ok s
  unfolding step handle_terminate handle_wait handle_set_health_state
  step-over (set_health_msg state) s o tx stopped status = ground arith
  step-over _ s o tx stopped status = ground arith

  pub run-over :
      (events : List Event) (s : System)
      → s.daemon ≡ over
      → s.actor.stop_tx ≡ false
      → s.actor.stopped_tx ≡ none
      → (s.actor.status ≡ terminated) ⊎ (s.actor.status ≡ failed)
      → after events s ≡ ok s
  unfolding run
  run-over [] s o tx stopped status = refl
  run-over (event ∷ events) s o tx stopped status =
      ground (arith, step-over event s o tx stopped status, run-over events s o tx stopped status)

  -- Once the daemon is done the program is terminated or failed, and nothing that happens later
  -- changes anything or panics: no message revives the program.
  pub over_is_final :
      (name : Str) (program : Program) (stop_rx : Receiver) (events later : List Event) (s : System)
      → after events (start name program stop_rx) ≡ ok s
      → s.daemon ≡ over
      → ((s.actor.status ≡ terminated) ⊎ (s.actor.status ≡ failed)) × (after later s ≡ ok s)
  over_is_final name program stop_rx events later s e o =
      let sound = run-IsSound build_uri spawn signal_name name program stop_rx events s e in
      let status : (s.actor.status ≡ terminated) ⊎ (s.actor.status ≡ failed) =
        ground (arith, sound) in
      (status, run-over later s o (ground (arith, sound)) (ground (arith, sound)) status)

  -- No `Wait` was handled, so the broadcast has no receiver.
  record Unwaited (s : System) : Type 0 where
    unheard : s.actor.stopped_tx ≡ some 0
    working : s.daemon ≢ over

  step-Unwaited :
      (event : Event) (s t : System)
      → event ≢ wait_msg
      → Unwaited s
      → next event s ≡ ok t
      → Unwaited t
  unfolding step handle_terminate handle_set_health_state daemon_future poll_repeated finish_daemon
      broadcast_stopped begin_run after_watch conclude finish_run
  step-Unwaited terminate_msg s t ne u = ground arith
  step-Unwaited wait_msg s t ne u = absurd (ne refl)
  step-Unwaited _ s t ne u = ground arith

  run-Unwaited :
      (events : List Event) (s t : System)
      → All (λ e. e ≢ wait_msg) events
      → Unwaited s
      → after events s ≡ ok t
      → Unwaited t
  unfolding run
  run-Unwaited [] s t h u e = ground (arith, u)
  run-Unwaited (event ∷ events) s t (ne, h) u e = elim (Outcome-cases (next event s)) [
    | inl panics ↦ cc (rw (panics, run) at e)
    | inr (v, moved) ↦
        run-Unwaited events v t h (step-Unwaited event s v ne u moved) (rw (moved, run) at e)
  ]

  start-Unwaited :
      (name : Str) (program : Program) (stop_rx : Receiver) → Unwaited (start name program stop_rx)
  unfolding start started new
  start-Unwaited name program stop_rx = ground arith

  -- While no `Wait` was handled, the daemon never ends in an orderly way: the poll at which its
  -- future answers panics, since the broadcast has no receiver.
  pub unwaited_end_panics :
      (name : Str) (program : Program) (stop_rx : Receiver) (events : List Event) (s : System)
      (future : RepeatedActFut Phase Receiver) (p : Polled Phase Receiver) (res : Bool) (now : ℕ)
      (slept : Bool)
      → All (λ e. e ≢ wait_msg) events
      → after events (start name program stop_rx) ≡ ok s
      → s.daemon ≡ active future
      → poll_repeated asked
          (record { now = now; inner = inner_answer s.actor.name future.fut; slept = slept })
          future
        ≡ ok p
      → p.answer ≡ ready res
      → next (poll_daemon now slept) s ≡ panic
  unfolding step finish_daemon broadcast_stopped
  unwaited_end_panics name program stop_rx events s future p res now slept h e active_now polls
        answers =
      let u = run-Unwaited events _ s h (start-Unwaited name program stop_rx) e in ground (arith, u)

  -- How the events go on from a state in which a child is watched and the stop signal was not sent.
  module _ (s : System) (sound : IsSound s) (future : RepeatedActFut Phase Receiver)
      (at_work : s.daemon ≡ active future) (unsent : s.actor.stop_tx ≡ true) (now : ℕ)
      (slept : Bool) where
    -- A `Terminate` while a child is watched ends the daemon, whatever else the polls meet: the child
    -- is stopped, the status is at last `terminated`, and the waiting are told.
    terminate_watching :
        (fut : WaitAbortFut Child Receiver) (unhealthy : Bool) (wait : Poll Waited)
        → future.fut ≡ polling (watching fut)
        → Ensures
            (λ t. (t.daemon ≡ over) × (t.actor.status ≡ terminated) × (t.actor.stopped_tx ≡ none))
            (after
              (terminate_msg
                ∷ wait_msg
                ∷ poll_watch unhealthy wait
                ∷ child_gone
                ∷ poll_daemon now slept
                ∷ [])
              s)
    unfolding run step handle_terminate handle_wait poll_abort after_watch conclude finish_run
        poll_repeated one_round finish_daemon broadcast_stopped has_receiver
    terminate_watching fut unhealthy wait watches = ground (arith, sound)

    -- A stop signal during the sleep, up to the next run.
    abbrev again : Receiver → List Event
    again unhealthy_rx =
        terminate_msg
        ∷ wait_msg
        ∷ poll_daemon now true
        ∷ poll_daemon now slept
        ∷ handle_run unhealthy_rx
        ∷ []

    -- A `Terminate` that comes while the caretaker waits to run the program again does not keep it
    -- from doing so: where the program can be spawned, a new child is spawned after the signal, to be
    -- stopped in the next poll. Then the daemon ends.
    pub terminate_resting :
        (delay unhealthy_rx : ℕ) (child : Child) (config : Option HealthConfig) (unhealthy : Bool)
        (wait : Poll Waited)
        → future.fut ≡ waiting delay
        → spawn (build_command s.actor.program) ≡ spawned child
        → health_config build_uri s.actor.program.http ≡ ok config
        → Ensures (λ t. watched_child t.daemon ≡ some child) (after (again unhealthy_rx) s)
          × Ensures
              (λ t. (t.daemon ≡ over) × (t.actor.status ≡ terminated))
              (after
                (again unhealthy_rx
                  ++ poll_watch unhealthy wait ∷ child_gone ∷ poll_daemon now slept ∷ [])
                s)
    unfolding run step handle_terminate handle_wait poll_abort new_abort after_watch conclude
        finish_run poll_repeated one_round finish_daemon broadcast_stopped has_receiver begin_run
    terminate_resting delay unhealthy_rx child config unhealthy wait rests spawns legal =
        (ground (arith, sound), ground (arith, sound))
