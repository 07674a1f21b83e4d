-- ===== src/Supervisor/Futs/Abort.antt =====
-- `WaitAbortFut` of src/supervisor/futs.rs: what it answers over a sequence of polls, and how the
-- end of a child becomes an error.
use blahaj.Prelude.{
  ℕ, ◌+◌, ◌*◌, ◌≤◌, ◌<◌, List, [], ◌∷◌, ◌≡◌, refl, Bool, true, false, Option, none, some, Outcome,
  ok, panic, ◌==◌, if◌then◌else◌, arith,
}
use blahaj.Prelude.Text.{Str, codes}
use blahaj.Error.{already_died, non_zero_exit, exit_by_signal}
use blahaj.Supervisor.Futs.{
  Poll, ready, pending, WaitAbortFut, WaitAbortResult, unhealthy_signal_received,
  stop_signal_received, exit, exit_with_error, status, failed, Signals, new_abort, poll_abort,
}

-- How a process ends: by `exit(c)`, or killed by a signal, with or without a core dump.
pub data Cause : Type 0 where
  exits : ℕ → Cause
  killed : ℕ → Bool → Cause

-- The numbers that an exit code and a signal can be.
abbrev pub IsCause : Cause → Type 0
IsCause (exits c) = c < 256
IsCause (killed s core) = (1 ≤ s) × (s ≤ 126)

-- The status word of `wait(2)`.
abbrev pub word_of : Cause → ℕ
word_of (exits c) = c * 256
word_of (killed s core) = if core then s + 128 else s

-- What the process and the two channels do by the time of a poll.
pub data Event : Type 0 where
  stopped : Event
  sick : Event
  died : Cause → Event
  lost : Event
  alive : Event

-- A stop signal may come with any other, and an unhealthy signal with the child's end.
pub data Shows : Event → Signals → Type 0 where
  shows_stop : (s : Signals) → s.stop ≡ true → Shows stopped s
  shows_sick : (s : Signals) → s.stop ≡ false → s.unhealthy ≡ true → Shows sick s
  shows_end :
      (s : Signals) (c : Cause)
      → IsCause c
      → s.stop ≡ false
      → s.unhealthy ≡ false
      → s.wait ≡ ready (status (word_of c))
      → Shows (died c) s
  shows_lost :
      (s : Signals) → s.stop ≡ false → s.unhealthy ≡ false → s.wait ≡ ready failed → Shows lost s
  shows_alive :
      (s : Signals) → s.stop ≡ false → s.unhealthy ≡ false → s.wait ≡ pending → Shows alive s

-- A sequence of polls that shows a sequence of events.
pub data ShowAll : List Event → List Signals → Type 0 where
  nothing : ShowAll [] []
  more :
      {e : Event} {s : Signals} {es : List Event} {ss : List Signals}
      → Shows e s
      → ShowAll es ss
      → ShowAll (e ∷ es) (s ∷ ss)

abbrev pub named_signal : Option Str → Str
named_signal none = codes "UNKNOWN"
named_signal (some name) = name

module _ (signal_name : ℕ → Option Str) {Child Receiver : Type 0} where
  -- What the first event that is not `alive` is reported as.
  abbrev pub report : Child → Receiver → List Event → Poll (WaitAbortResult Child Receiver)
  report child stop_rx [] = pending
  report child stop_rx (alive ∷ events) = report child stop_rx events
  report child stop_rx (stopped ∷ events) = ready (stop_signal_received child)
  report child stop_rx (sick ∷ events) = ready (unhealthy_signal_received stop_rx child)
  report child stop_rx (lost ∷ events) = ready (exit_with_error stop_rx already_died)
  report child stop_rx (died (exits c) ∷ events) =
      ready (if c == 0 then exit stop_rx else exit_with_error stop_rx (non_zero_exit c))
  report child stop_rx (died (killed s core) ∷ events) =
      ready (exit_with_error stop_rx (exit_by_signal (named_signal (signal_name s))))

  -- Polls in turn, until one is ready.
  unfoldable pub run_abort :
      List Signals → WaitAbortFut Child Receiver → Outcome (Poll (WaitAbortResult Child Receiver))
  run_abort [] this = ok pending
  run_abort (env ∷ envs) this = elim (poll_abort signal_name env this) [
    | panic ↦ panic
    | ok (after, answer) ↦ elim answer [
      | ready result ↦ ok (ready result)
      | pending ↦ run_abort envs after
    ]
  ]

  -- Over any sequence of polls the future does not panic, and reports the first event that is not
  -- `alive`, a stop signal before an unhealthy signal before the child's end: with the child and the
  -- stop receiver that it was made with, and the exit code or the signal that the status word holds.
  pub run_abort-report :
      {events : List Event} {signals : List Signals} (child : Child)
      (stop_rx unhealthy_rx : Receiver)
      → ShowAll events signals
      → run_abort signals (new_abort child stop_rx unhealthy_rx) ≡ ok (report child stop_rx events)
  unfolding run_abort poll_abort new_abort
  run_abort-report child stop_rx unhealthy_rx nothing = refl
  run_abort-report child stop_rx unhealthy_rx (more (shows_stop s p) rest) = ground arith
  run_abort-report child stop_rx unhealthy_rx (more (shows_sick s p q) rest) = ground arith
  run_abort-report child stop_rx unhealthy_rx (more (shows_lost s p q r) rest) = ground arith
  run_abort-report child stop_rx unhealthy_rx (more (shows_alive s p q r) rest) =
      ground (arith, run_abort-report child stop_rx unhealthy_rx rest)
  run_abort-report child stop_rx unhealthy_rx (more (shows_end s (exits c) b p q r) rest) =
      ground arith
  run_abort-report child stop_rx unhealthy_rx (more (shows_end s (killed n true) b p q r) rest) =
      ground arith
  run_abort-report child stop_rx unhealthy_rx (more (shows_end s (killed n false) b p q r) rest) =
      ground arith
