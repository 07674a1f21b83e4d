-- ===== src/Supervisor/Caretaker/Terminating/Fairness.antt =====
-- A caretaker of src/supervisor/caretaker.rs that goes on after a stop signal, among other events.
use blahaj.Prelude.{
  ℕ, suc, ◌≤◌, List, [], ◌∷◌, ◌≡◌, ◌≢◌, refl, inl, inr, false, Option, none, some, Outcome, ok,
  Ensures, All, Outcome-cases, subst, arith,
}
use blahaj.Prelude.Text.{Str}
use blahaj.Config.{Program}
use blahaj.Proxy.{Scheme}
use blahaj.Supervisor.Caretaker.{Command, build_command}
use blahaj.Supervisor.Caretaker.Run.{health_config, Child, Receiver, Spawned, spawned}
use blahaj.Supervisor.Caretaker.System.{
  Daemon, over, System, start, Event, terminate_msg, step, run,
}
use blahaj.Supervisor.Caretaker.Invariant.{IsSound, step-IsSound, run-IsSound}
use blahaj.Supervisor.Caretaker.Panics.{IsAwaited, IsLegal, IsRegular, step-IsAwaited, run-IsTimed}
use blahaj.Supervisor.Caretaker.Endings.{terminate_no_panic}
use blahaj.Supervisor.Caretaker.Terminating.{rank, Advances, step-stop_tx, step-rank, advance-rank}

-- For each rank from this one on, the event that takes the daemon past it is in the list, in that
-- order and among others.
pub data Passes : ℕ → List Event → Type 0 where
  arrived : {events : List Event} → Passes 10 events
  also : {k : ℕ} {e : Event} {events : List Event} → Passes k events → Passes k (e ∷ events)
  advances :
      {k : ℕ} {e : Event} {events : List Event}
      → Advances k e
      → Passes (suc k) events
      → Passes k (e ∷ events)

rank-over : (daemon : Daemon) → 10 ≤ rank daemon → daemon ≡ over
rank-over daemon far = ground arith

-- The work is over, and those that wait were told.
abbrev pub IsEnded : System → Type 0
IsEnded s = (s.daemon ≡ over) × (s.actor.stopped_tx ≡ none)

module _ (build_uri : Scheme → Str → Str → Option Str) (spawn : Command → Spawned)
    (signal_name : ℕ → Option Str) where
  abbrev next : Event → System → Outcome System
  next = step build_uri spawn signal_name

  abbrev after : List Event → System → Outcome System
  after = run build_uri spawn signal_name

  module _ (program : Program) (legal : IsLegal build_uri spawn signal_name program) (child : Child)
      (spawnable : spawn (build_command program) ≡ spawned child) where
    pub record IsLeaving (k : ℕ) (s : System) : Type 0 where
      pub sound : IsSound s
      pub awaited : IsAwaited build_uri spawn signal_name program s
      pub stop : s.actor.stop_tx ≡ false
      pub far : k ≤ rank s.daemon

    IsLeaving-IsEnded : (s : System) → IsLeaving 10 s → IsEnded s
    IsLeaving-IsEnded s leaving =
        let o = rank-over s.daemon leaving.far in (o, ground (arith, leaving.sound, o))

    -- An event keeps what holds of a caretaker on its way, however far it gets.
    step-IsLeaving :
        (j k : ℕ) (e : Event) (s t : System)
        → IsLeaving j s
        → IsRegular program e
        → next e s ≡ ok t
        → k ≤ rank t.daemon
        → IsLeaving k t
    step-IsLeaving j k e s t leaving r moved far = record {
      sound = step-IsSound build_uri spawn signal_name e s t leaving.sound moved;
      awaited = subst (Ensures (IsAwaited build_uri spawn signal_name program)) moved (
          step-IsAwaited build_uri spawn signal_name program legal e s leaving.sound leaving.awaited
            r);
      stop = step-stop_tx build_uri spawn signal_name e s t (inl leaving.stop) moved;
      far = far;
    }

    -- A run that goes on from a next state of some rank.
    run-next :
        (j k : ℕ) (e : Event) (events : List Event) (s : System)
        → IsLeaving j s
        → IsRegular program e
        → ((t : System) → next e s ≡ ok t → k ≤ rank t.daemon)
        → ((t : System) → IsLeaving k t → Ensures IsEnded (after events t))
        → Ensures IsEnded (after (e ∷ events) s)
    unfolding run
    run-next j k e events s leaving r far rest = elim (Outcome-cases (next e s)) [
      | inl panics ↦ absurd (
          subst (Ensures (IsAwaited build_uri spawn signal_name program)) panics (
            step-IsAwaited build_uri spawn signal_name program legal e s leaving.sound
              leaving.awaited r))
      | inr (t, moved) ↦
          rw (moved) (rest t (step-IsLeaving j k e s t leaving r moved (far t moved)))
    ]

    same_spawn :
        (k : ℕ) (s : System)
        → IsLeaving k s
        → (spawn (build_command s.actor.program) ≡ spawned child)
          × (health_config build_uri s.actor.program.http ≡ ok legal.0)
    same_spawn k s leaving =
        let same = leaving.awaited.timed.same_program in (rw (same) spawnable, rw (same) legal.1)

    stays-rank :
        (k : ℕ) (e : Event) (s t : System) → IsLeaving k s → next e s ≡ ok t → k ≤ rank t.daemon
    stays-rank k e s t leaving moved =
        let same = same_spawn k s leaving in
        let on =
          step-rank build_uri spawn signal_name s t leaving.sound leaving.stop child legal.0 same.0
            same.1 e moved in
        let far = leaving.far in omega arith

    advances-rank :
        (k : ℕ) (e : Event) (s t : System)
        → Advances k e
        → IsLeaving k s
        → next e s ≡ ok t
        → suc k ≤ rank t.daemon
    advances-rank k e s t a leaving moved =
        let same = same_spawn k s leaving in
        advance-rank build_uri spawn signal_name s t leaving.sound leaving.stop child legal.0 same.0
          same.1 k e a moved leaving.far

    pub run-IsLeaving :
        (k : ℕ) (events : List Event) (s : System)
        → Passes k events
        → IsLeaving k s
        → All (IsRegular program) events
        → Ensures IsEnded (after events s)
    unfolding run
    run-IsLeaving k [] s arrived leaving h = IsLeaving-IsEnded s leaving
    run-IsLeaving k (e ∷ events) s arrived leaving (r, h) =
        run-next 10 10 e events s leaving r (λ t. stays-rank 10 e s t leaving)
          (λ t l. run-IsLeaving 10 events t arrived l h)
    run-IsLeaving k (e ∷ events) s (also passes) leaving (r, h) =
        run-next k k e events s leaving r (λ t. stays-rank k e s t leaving)
          (λ t l. run-IsLeaving k events t passes l h)
    run-IsLeaving k (e ∷ events) s (advances a passes) leaving (r, h) =
        run-next k (suc k) e events s leaving r (λ t. advances-rank k e s t a leaving)
          (λ t l. run-IsLeaving (suc k) events t passes l h)

    terminate-IsLeaving :
        (s t : System)
        → IsSound s
        → IsAwaited build_uri spawn signal_name program s
        → next terminate_msg s ≡ ok t
        → IsLeaving 0 t
    terminate-IsLeaving s t sound awaited moved = record {
      sound = step-IsSound build_uri spawn signal_name terminate_msg s t sound moved;
      awaited = subst (Ensures (IsAwaited build_uri spawn signal_name program)) moved (
          step-IsAwaited build_uri spawn signal_name program legal terminate_msg s sound awaited
            tt);
      stop = step-stop_tx build_uri spawn signal_name terminate_msg s t (inr refl) moved;
      far = omega arith;
    }

    -- A `Terminate` that is handled after a `Wait` ends the daemon, at whatever stage it is, and
    -- those that wait are told: once the ten events by which the work goes on have each happened
    -- after the one before, whatever else happens in between and later. This is where the program
    -- can be spawned, the Uri of its health check can be built, the clock reads no time below the
    -- program's window, and a child ends with a status word.
    pub terminate_ends :
        (name : Str) (stop_rx : Receiver) (events later : List Event) (s : System)
        → after events (start name program stop_rx) ≡ ok s
        → s.actor.stopped_tx ≢ some 0
        → Passes 0 later
        → All (IsRegular program) later
        → Ensures IsEnded (after (terminate_msg ∷ later) s)
    unfolding run
    terminate_ends name stop_rx events later s e awaited passes h =
        let sound = run-IsSound build_uri spawn signal_name name program stop_rx events s e in
        let safe : IsAwaited build_uri spawn signal_name program s = record {
          timed = run-IsTimed build_uri spawn signal_name program name stop_rx events s e;
          awaited = awaited;
        } in
        elim (Outcome-cases (next terminate_msg s)) [
          | inl panics ↦ absurd (
              terminate_no_panic build_uri spawn signal_name name program stop_rx events s e panics)
          | inr (t, moved) ↦
              rw (moved)
                (run-IsLeaving 0 later t passes (terminate-IsLeaving s t sound safe moved) h)
        ]
