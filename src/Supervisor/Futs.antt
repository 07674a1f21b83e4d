-- ===== src/Supervisor/Futs.antt =====
-- src/supervisor/futs.rs: the two futures that are polled by hand. What the polled parts answer
-- (the inner future, the timer, the channels, the child) is an argument of each poll.
pub mod Repeated
pub mod Rounds
pub mod CrashLoop
pub mod Abort
mod Tests
use blahaj.Prelude.{
  ℕ, ◌/◌, ◌%◌, Bool, true, false, ◌&&◌, Option, none, some, Outcome, ok, panic, expect, ◌>>=◌, ltb,
  leb, ◌==◌, if◌then◌else◌,
}
use blahaj.Prelude.Text.{Str, codes}
use blahaj.Error.{SupervisorError, already_died, non_zero_exit, exit_by_signal}
use blahaj.Supervisor.Retry.{RetryGuard, mark}

pub data Poll {ℓ} (A : Type ℓ) : Type ℓ where
  ready : A → Poll A
  pending : Poll A

pub data FutureSlot (Fut : Type 0) : Type 0 where
  polling : Fut → FutureSlot Fut
  waiting : ℕ → FutureSlot Fut
  empty : FutureSlot Fut

pub record RepeatedActFut (Fut I : Type 0) : Type 0 where
  pub fut : FutureSlot Fut
  pub state : Option I
  pub retry_guard : RetryGuard
  pub retry_interval : ℕ

-- What a poll meets: the time, and the answers of the inner future and of the sleep, whichever is
-- polled.
pub record Answers (I : Type 0) : Type 0 where
  pub now : ℕ
  pub inner : Poll (Option I)
  pub slept : Bool

-- What a poll leaves: the future, its answer, and whether it woke its own task.
pub record Polled (Fut I : Type 0) : Type 0 where
  pub after : RepeatedActFut Fut I
  pub answer : Poll Bool
  pub woken : Bool

module _ {Fut I : Type 0} where
  unfoldable pub new_repeated : I → RetryGuard → ℕ → RepeatedActFut Fut I
  new_repeated initial_state retry_guard retry_interval = record {
    fut = empty;
    state = some initial_state;
    retry_guard = retry_guard;
    retry_interval = retry_interval;
  }

  -- The inner future resolved to a state: the process exited.
  exited : RepeatedActFut Fut I → ℕ → I → Outcome (Polled Fut I)
  exited this now res = do
    (guard, within) ← mark now this.retry_guard
    let marked = record this { retry_guard = guard }
    ok (
        if within
        then record {
          after = record marked { state = some res; fut = waiting this.retry_interval };
          answer = pending;
          woken = true;
        }
        else record { after = marked; answer = ready false; woken = false })

  poll_inner : RepeatedActFut Fut I → ℕ → Poll (Option I) → Outcome (Polled Fut I)
  poll_inner this now pending = ok (record { after = this; answer = pending; woken = false })
  poll_inner this now (ready (some res)) = exited this now res
  poll_inner this now (ready none) =
      ok (record { after = this; answer = ready true; woken = false })

  poll_sleep : RepeatedActFut Fut I → Bool → Polled Fut I
  poll_sleep this slept =
      if slept
      then record { after = record this { fut = empty }; answer = pending; woken = true }
      else record { after = this; answer = pending; woken = false }

  poll_empty : (I → Fut) → RepeatedActFut Fut I → Outcome (Polled Fut I)
  poll_empty factory this = do
    state ← expect this.state
    ok (record {
      after = record this { state = none; fut = polling (factory state) };
      answer = pending;
      woken = true;
    })

  dispatch : (I → Fut) → FutureSlot Fut → Answers I → RepeatedActFut Fut I → Outcome (Polled Fut I)
  dispatch factory (polling _) env this = poll_inner this env.now env.inner
  dispatch factory (waiting _) env this = ok (poll_sleep this env.slept)
  dispatch factory empty env this = poll_empty factory this

  unfoldable pub poll_repeated :
      (I → Fut) → Answers I → RepeatedActFut Fut I → Outcome (Polled Fut I)
  unfolding dispatch poll_inner exited poll_sleep poll_empty
  poll_repeated factory env this = dispatch factory this.fut env this

pub record WaitAbortFut (Child Receiver : Type 0) : Type 0 where
  pub child : Option Child
  pub stop_rx : Option Receiver
  pub unhealthy_rx : Option Receiver

pub data WaitAbortResult (Child Receiver : Type 0) : Type 0 where
  unhealthy_signal_received : Receiver → Child → WaitAbortResult Child Receiver
  stop_signal_received : Child → WaitAbortResult Child Receiver
  exit : Receiver → WaitAbortResult Child Receiver
  exit_with_error : Receiver → SupervisorError → WaitAbortResult Child Receiver

-- `io::Result<ExitStatus>`, by the status word of `wait(2)`.
pub data Waited : Type 0 where
  status : ℕ → Waited
  failed : Waited

-- `ExitStatus::success`, `code` and `signal` of the standard library on Unix.
abbrev pub success : ℕ → Bool
success word = word == 0

abbrev pub code : ℕ → Option ℕ
code word = if word % 128 == 0 then some (word / 256 % 256) else none

abbrev pub signal : ℕ → Option ℕ
signal word = if leb 1 (word % 128) && leb (word % 128) 126 then some (word % 128) else none

-- Whether the two channels are ready, and what waiting for the child gives.
pub record Signals : Type 0 where
  pub stop : Bool
  pub unhealthy : Bool
  pub wait : Poll Waited

module _ {Child Receiver : Type 0} where
  unfoldable pub new_abort : Child → Receiver → Receiver → WaitAbortFut Child Receiver
  new_abort child stop_rx unhealthy_rx = record {
    child = some child;
    stop_rx = some stop_rx;
    unhealthy_rx = some unhealthy_rx;
  }

  -- The future with its fields taken out.
  abbrev taken : WaitAbortFut Child Receiver
  taken = record { child = none; stop_rx = none; unhealthy_rx = none }

-- `unwrap_or("UNKNOWN")`.
name_or_unknown : Option Str → Str
name_or_unknown none = codes "UNKNOWN"
name_or_unknown (some name) = name

-- `signal_name` is a function of the crate `signal-hook`.
module _ (signal_name : ℕ → Option Str) where
  -- The error of a status that is no success.
  unfoldable pub exit_error : ℕ → Outcome SupervisorError
  unfolding name_or_unknown
  exit_error word = elim (code word) [
    | some exit_code ↦ ok (non_zero_exit exit_code)
    | none ↦ do sig ← expect (signal word); ok (exit_by_signal (name_or_unknown (signal_name sig)))
  ]

  module _ {Child Receiver : Type 0} where
    exited_child : Receiver → Waited → Outcome (WaitAbortResult Child Receiver)
    unfolding exit_error
    exited_child stop_rx failed = ok (exit_with_error stop_rx already_died)
    exited_child stop_rx (status word) =
        if success word
        then ok (exit stop_rx)
        else (do err ← exit_error word; ok (exit_with_error stop_rx err))

    -- What is polled, with the three fields in hand; they are put back if nothing is ready.
    poll_taken :
        Signals
        → Child
        → Receiver
        → Receiver
        → Outcome (WaitAbortFut Child Receiver × Poll (WaitAbortResult Child Receiver))
    unfolding exited_child
    poll_taken env child stop_rx unhealthy_rx =
        if env.stop
        then ok (taken, ready (stop_signal_received child))
        else if env.unhealthy
        then ok (taken, ready (unhealthy_signal_received stop_rx child))
        else elim env.wait [
          | ready waited ↦ do result ← exited_child stop_rx waited; ok (taken, ready result)
          | pending ↦ ok (
            record taken {
              child = some child;
              stop_rx = some stop_rx;
              unhealthy_rx = some unhealthy_rx;
            },
            pending,
          )
        ]

    unfoldable pub poll_abort :
        Signals
        → WaitAbortFut Child Receiver
        → Outcome (WaitAbortFut Child Receiver × Poll (WaitAbortResult Child Receiver))
    unfolding poll_taken
    poll_abort env this = do
      child ← expect this.child
      stop_rx ← expect this.stop_rx
      unhealthy_rx ← expect this.unhealthy_rx
      poll_taken env child stop_rx unhealthy_rx
