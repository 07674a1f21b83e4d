-- ===== src/Supervisor/Caretaker/Endless.antt =====
-- A program of src/supervisor/caretaker.rs that cannot be spawned: its stop signal is polled only
-- where a child is watched.
mod Tests
use blahaj.Prelude.{
  ℕ, suc, ◌+◌, ◌-◌, ◌≤◌, ◌<◌, List, [], ◌∷◌, ◌++◌, ◌≡◌, ◌≢◌, refl, subst, ◌⊎◌, inl, inr, Bool, true,
  Option, none, some, Outcome, ok, panic, Ensures, All, Outcome-cases, length, length-append, arith,
}
use blahaj.Prelude.Text.{Str}
use blahaj.Config.{Program}
use blahaj.Proxy.{Scheme}
use blahaj.Supervisor.Retry
use blahaj.Supervisor.Retry.{RetryGuard, mark}
use blahaj.Supervisor.Retry.Queue.{mark-Ensures}
use blahaj.Supervisor.Futs.{
  RepeatedActFut, FutureSlot, polling, waiting, empty, new_repeated, new_abort, poll_repeated,
  poll_abort,
}
use blahaj.Supervisor.Caretaker.{
  new, started, Command, build_command, handle_terminate, handle_wait, handle_set_health_state,
  broadcast_stopped,
}
use blahaj.Supervisor.Caretaker.Run.{
  Receiver, Spawned, not_spawned, failure, ended_in, after_watch, conclude, finish_run, one_round,
  daemon_future, finish_daemon, begin_run,
}
use blahaj.Supervisor.Caretaker.System.{
  Phase, asked, resolved, reported, Daemon, unhandled, active, over, System, start, Event,
  handle_daemon, poll_daemon, handle_run, poll_watch, look_at_end, child_gone, terminate_msg,
  wait_msg, set_health_msg, has_receiver, step, run,
}

-- The phases that a run goes through whose child is never there.
abbrev pub Childless : FutureSlot Phase → Type 0
Childless (polling (asked _)) = Unit
Childless (polling (resolved (failure _ _))) = Unit
Childless (polling (reported (ended_in _ _))) = Unit
Childless (waiting _) = Unit
Childless empty = Unit
Childless _ = ⊥

-- The daemon works, and has marked at most as many rounds as it was polled.
abbrev pub Works : ℕ → Program → Daemon → Type 0
Works polls program (unhandled _) = Unit
Works polls program (active future) =
    (length future.retry_guard.retries ≤ polls)
    × (future.retry_guard.tolerance_count ≡ program.retry.count)
    × Childless future.fut
Works polls program over = ⊥

-- How many polls of the daemon's future are among some events.
abbrev pub polls_in : List Event → ℕ
polls_in [] = 0
polls_in (poll_daemon _ _ ∷ events) = suc (polls_in events)
polls_in (_ ∷ events) = polls_in events

active-cases :
    (d : Daemon)
    → ((future : RepeatedActFut Phase Receiver) × (d ≡ active future))
      ⊎ ((d ≡ over) ⊎ ((stop_rx : Receiver) × (d ≡ unhandled stop_rx)))
active-cases (active future) = inl (future, refl)
active-cases over = inr (inl refl)
active-cases (unhandled stop_rx) = inr (inr (stop_rx, refl))

module _ (build_uri : Scheme → Str → Str → Option Str) (spawn : Command → Spawned)
    (signal_name : ℕ → Option Str) (program : Program) (error : Str)
    (refused : spawn (build_command program) ≡ not_spawned error) where
  abbrev next : Event → System → Outcome System
  next = step build_uri spawn signal_name

  record IsWorking (polls : ℕ) (s : System) : Type 0 where
    same_program : s.actor.program ≡ program
    works : Works polls program s.daemon

  module _ (polls : ℕ) (s t : System) (working : IsWorking polls s) where
    IsWorking-handle_run :
        (unhealthy_rx : Receiver) → next (handle_run unhealthy_rx) s ≡ ok t → IsWorking polls t
    unfolding step begin_run new_abort
    IsWorking-handle_run unhealthy_rx e = ground (arith, refused)

    IsWorking-poll_daemon :
        (now : ℕ) (slept : Bool)
        → suc polls < program.retry.count
        → next (poll_daemon now slept) s ≡ ok t
        → IsWorking (suc polls) t
    unfolding step poll_repeated one_round
    IsWorking-poll_daemon now slept few e = elim (active-cases s.daemon) [
      | inl (future, here) ↦ ground (arith, mark-Ensures now future.retry_guard)
      | inr idle ↦ ground (arith, idle)
    ]

    IsWorking-rest :
        (event : Event) → (polls_in (event ∷ []) ≡ 0) → next event s ≡ ok t → IsWorking polls t
    unfolding step handle_terminate handle_wait handle_set_health_state daemon_future new_repeated
        Retry.new poll_abort after_watch conclude finish_run
    IsWorking-rest (handle_run unhealthy_rx) unpolled e = IsWorking-handle_run unhealthy_rx e
    IsWorking-rest (poll_daemon now slept) unpolled e = absurd (ground (arith, unpolled))
    IsWorking-rest event unpolled e = ground arith

  step-IsWorking :
      (event : Event) (polls : ℕ) (s t : System)
      → polls + polls_in (event ∷ []) < program.retry.count
      → IsWorking polls s
      → next event s ≡ ok t
      → IsWorking (polls + polls_in (event ∷ [])) t
  step-IsWorking (poll_daemon now slept) polls s t few working e =
      subst (λ n. IsWorking n t) (omega arith)
        (IsWorking-poll_daemon polls s t working now slept (omega (arith, few)) e)
  step-IsWorking event polls s t few working e =
      subst (λ n. IsWorking n t) (omega arith) (IsWorking-rest polls s t working event refl e)

  polls_in-cons :
      (event : Event) (events : List Event)
      → polls_in (event ∷ events) ≡ polls_in (event ∷ []) + polls_in events
  polls_in-cons event events = ground arith

  run-IsWorking :
      (events : List Event) (polls : ℕ) (s t : System)
      → polls + polls_in events < program.retry.count
      → IsWorking polls s
      → run build_uri spawn signal_name events s ≡ ok t
      → t.daemon ≢ over
  unfolding run
  run-IsWorking [] polls s t few working e = ground (arith, working, e)
  run-IsWorking (event ∷ events) polls s t few working e = elim (Outcome-cases (next event s)) [
    | inl panics ↦ cc (rw (panics, run) at e)
    | inr (u, moved) ↦
        let sum = polls_in-cons event events in
        run-IsWorking events (polls + polls_in (event ∷ [])) u t (omega (arith, few, sum))
          (step-IsWorking event polls s u (omega (arith, few, sum)) working moved)
          (rw (moved, run) at e)
  ]

  start-IsWorking : (name : Str) (stop_rx : Receiver) → IsWorking 0 (start name program stop_rx)
  unfolding start started new
  start-IsWorking name stop_rx = ground arith

  -- While the daemon of a program that cannot be spawned was polled fewer times than the retry
  -- count, it is not done, however many `Terminate`s came: the stop signal is not heard.
  pub unspawned_never_ends :
      (name : Str) (stop_rx : Receiver) (events : List Event) (t : System)
      → polls_in events < program.retry.count
      → run build_uri spawn signal_name events (start name program stop_rx) ≡ ok t
      → t.daemon ≢ over
  unspawned_never_ends name stop_rx events t few e =
      run-IsWorking events 0 _ t (omega (arith, few)) (start-IsWorking name stop_rx) e
