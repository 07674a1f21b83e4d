-- ===== src/Supervisor/Caretaker/GivingUp/Steps.antt =====
-- The steps of a round of src/supervisor/caretaker.rs whose child ends by itself.
use blahaj.Prelude.{
  ℕ, List, [], ◌∷◌, ◌++◌, ◌≡◌, ◌≢◌, Bool, true, false, Option, none, some, Outcome, ok, Ensures,
  Outcome-cases, inl, inr, arith,
}
use blahaj.Prelude.Text.{Str}
use blahaj.Config.{Program}
use blahaj.Proxy.{Scheme}
use blahaj.Supervisor.Lifecycle.{failed}
use blahaj.Supervisor.Health.{HealthConfig}
use blahaj.Supervisor.Retry.{mark}
use blahaj.Supervisor.Futs.{
  RepeatedActFut, FutureSlot, empty, polling, waiting, ready, status, poll_repeated, poll_abort,
  new_abort, exit_error,
}
use blahaj.Supervisor.Futs.Abort.{Cause, IsCause, word_of}
use blahaj.Supervisor.Caretaker.{Command, build_command, broadcast_stopped}
use blahaj.Supervisor.Caretaker.Run.{
  Child, Receiver, Spawned, spawned, health_config, begin_run, after_watch, conclude, finish_run,
  one_round, finish_daemon,
}
use blahaj.Supervisor.Caretaker.System.{
  Phase, asked, watching, reported, System, Daemon, active, over, Event, poll_daemon, handle_run,
  poll_watch, step, run,
}

-- A round: when its child ends, of what, and the receiver that its run made.
pub record Round : Type 0 where
  pub now : ℕ
  pub cause : Cause
  pub unhealthy_rx : Receiver

-- The daemon asks for a run, the child is spawned and ends, and the daemon hears of it and sleeps.
abbrev pub events_of : Round → List Event
events_of round =
    poll_daemon round.now true
    ∷ handle_run round.unhealthy_rx
    ∷ poll_watch false (ready (status (word_of round.cause)))
    ∷ poll_daemon round.now true
    ∷ poll_daemon round.now true
    ∷ []

-- The receiver that the daemon gets from a run that is over.
abbrev told : Str → FutureSlot Phase → Option Receiver
told name (polling (reported result)) = (one_round name result).1
told name _ = none

module _ (program : Program) where
  abbrev pub future_of : FutureSlot Phase → Option Receiver → List ℕ → RepeatedActFut Phase Receiver
  future_of slot state marks = record {
    fut = slot;
    state = state;
    retry_guard = record {
      retries = marks;
      tolerance_interval = program.retry.window;
      tolerance_count = program.retry.count;
    };
    retry_interval = program.retry.delay;
  }

  -- A caretaker that was not told to stop and has handled a `Wait`, whose daemon is there.
  pub record IsAt (slot : FutureSlot Phase) (state : Option Receiver) (marks : List ℕ) (s : System)
      : Type 0 where
    pub same_program : s.actor.program ≡ program
    pub unstopped : s.actor.stop_tx ≡ true
    pub awaited : s.actor.stopped_tx ≢ some 0
    pub unsent : s.actor.stopped_tx ≢ none
    pub here : s.daemon ≡ active (future_of slot state marks)

  -- What a run that is over tells the daemon, which goes on with the receiver.
  abbrev ToldDaemon : Receiver → List ℕ → Str → Daemon → Type 0
  ToldDaemon rx marks name (active future) =
      (future.state ≡ none)
      × (future.retry_guard ≡ (future_of empty none marks).retry_guard)
      × (future.retry_interval ≡ program.retry.delay)
      × (told name future.fut ≡ some rx)
  ToldDaemon rx marks name _ = ⊥

  pub record IsReported (rx : Receiver) (marks : List ℕ) (s : System) : Type 0 where
    same_program : s.actor.program ≡ program
    unstopped : s.actor.stop_tx ≡ true
    awaited : s.actor.stopped_tx ≢ some 0
    unsent : s.actor.stopped_tx ≢ none
    here : ToldDaemon rx marks s.actor.name s.daemon

-- The daemon is done, the program has failed, and those that wait were told.
pub record IsGivenUp (s : System) : Type 0 where
  pub done : s.daemon ≡ over
  pub status : s.actor.status ≡ failed
  pub stopped : s.actor.stop_tx ≡ false
  pub sent : s.actor.stopped_tx ≡ none

module _ (build_uri : Scheme → Str → Str → Option Str) (spawn : Command → Spawned)
    (signal_name : ℕ → Option Str) (program : Program) where
  abbrev next : Event → System → Outcome System
  next = step build_uri spawn signal_name

  abbrev after : List Event → System → Outcome System
  after = run build_uri spawn signal_name

  module _ (rx : Receiver) (marks : List ℕ) (s : System) where
    asks-Ensures :
        (now : ℕ) (slept : Bool)
        → IsAt program empty (some rx) marks s
        → Ensures (IsAt program (polling (asked rx)) none marks) (next (poll_daemon now slept) s)
    unfolding step poll_repeated
    asks-Ensures now slept at = ground (arith, at)

    ends-Ensures :
        (child : Child) (unhealthy_rx : Receiver) (cause : Cause)
        → IsCause cause
        → IsAt program (polling (watching (new_abort child rx unhealthy_rx))) none marks s
        → Ensures
            (IsReported program rx marks)
            (next (poll_watch false (ready (status (word_of cause)))) s)
    unfolding step new_abort poll_abort exit_error after_watch conclude finish_run one_round
    ends-Ensures child unhealthy_rx cause is at = ground (arith, at, is)

    pub wakes-Ensures :
        (now : ℕ)
        → IsAt program (waiting program.retry.delay) (some rx) marks s
        → Ensures (IsAt program empty (some rx) marks) (next (poll_daemon now true) s)
    unfolding step poll_repeated
    wakes-Ensures now at = ground (arith, at)

    pub goes_on-Ensures :
        (now : ℕ)
        → mark now (future_of program empty none marks).retry_guard
          ≡ ok ((future_of program empty none (marks ++ now ∷ [])).retry_guard, true)
        → IsReported program rx marks s
        → Ensures
            (IsAt program (waiting program.retry.delay) (some rx) (marks ++ now ∷ []))
            (next (poll_daemon now true) s)
    unfolding step poll_repeated one_round
    goes_on-Ensures now counted r = ground (arith, r, counted)

    pub gives_up-Ensures :
        (now : ℕ)
        → mark now (future_of program empty none marks).retry_guard
          ≡ ok ((future_of program empty none (marks ++ now ∷ [])).retry_guard, false)
        → IsReported program rx marks s
        → Ensures IsGivenUp (next (poll_daemon now true) s)
    unfolding step poll_repeated one_round finish_daemon broadcast_stopped
    gives_up-Ensures now counted r = ground (arith, r, counted)

  pub then_Ensures :
      (P Q : System → Type 0) (e : Event) (events : List Event) (s : System)
      → Ensures P (next e s)
      → ((t : System) → P t → Ensures Q (after events t))
      → Ensures Q (after (e ∷ events) s)
  unfolding run
  then_Ensures P Q e events s h later = elim (Outcome-cases (next e s)) [
    | inl panics ↦ absurd (rw (panics) at h)
    | inr (t, moved) ↦ rw (moved) (later t (rw (moved) at h))
  ]

  module _ (child : Child) (spawnable : spawn (build_command program) ≡ spawned child)
      (config : Option HealthConfig)
      (legal : health_config build_uri program.http ≡ ok config) where
    spawns-Ensures :
        (rx : Receiver) (marks : List ℕ) (s : System) (unhealthy_rx : Receiver)
        → IsAt program (polling (asked rx)) none marks s
        → Ensures
            (IsAt program (polling (watching (new_abort child rx unhealthy_rx))) none marks)
            (next (handle_run unhealthy_rx) s)
    unfolding step begin_run
    spawns-Ensures rx marks s unhealthy_rx at = ground (arith, at, spawnable, legal)

    pub reported_Ensures :
        (rx : Receiver) (marks : List ℕ) (round : Round) (Q : System → Type 0) (later : List Event)
        (s : System)
        → IsCause round.cause
        → IsAt program empty (some rx) marks s
        → ((t : System)
            → IsReported program rx marks t
            → Ensures Q (after (poll_daemon round.now true ∷ poll_daemon round.now true ∷ later) t))
        → Ensures Q (after (events_of round ++ later) s)
    reported_Ensures rx marks round Q later s is at rest =
        then_Ensures _ Q _ _ s (asks-Ensures rx marks s round.now true at) (λ t asked_at.
          then_Ensures _ Q _ _ t (spawns-Ensures rx marks t round.unhealthy_rx asked_at) (λ u there.
            then_Ensures _ Q _ _ u
              (ends-Ensures rx marks u child round.unhealthy_rx round.cause is there) rest))
