-- ===== src/CtrlcHandler.antt =====
-- src/ctrlc_handler.rs: the actor that hears the signals of the operating system. The crates
-- `signal_hook` and `signal_hook_tokio` are parameters: a handle, and whether one can be had.
pub mod Signalled
pub mod Termination
mod Tests
use blahaj.Prelude.{ℕ, Option, none, some, Outcome, ok, expect, ◌>>=◌}
use blahaj.Prelude.Text.{codes}
use blahaj.Logger
use blahaj.Logger.{Custom}

-- What the supervisor is sent: `Join` by `main` (src/main.rs), `TerminateAll` by the handler.
pub data Message : Type 0 where
  join_msg terminate_all_msg : Message

pub record SignalHandler (Handle : Type 0) : Type 0 where
  pub handle : Option Handle

module _ {Handle : Type 0} where
  unfoldable pub new : SignalHandler Handle
  new = record { handle = none }

  -- `Actor::started`: `signals` is the handle of `Signals::new(TERM_SIGNALS)`, if it succeeds.
  unfoldable pub started : Option Handle → SignalHandler Handle → Outcome (SignalHandler Handle)
  started signals this = do handle ← expect signals; ok (record this { handle = some handle })

  -- `StreamHandler<c_int>::handle`: a line is logged, and the supervisor is sent `TerminateAll`,
  -- whatever the signal is.
  unfoldable pub handle_signal : ℕ → SignalHandler Handle → Custom × Message
  handle_signal signal this =
      (Logger.new (codes "signal") (codes "Terminating all processes"), terminate_all_msg)

  -- `Actor::stopping`: the handle that is closed, if there is one.
  unfoldable pub stopping : SignalHandler Handle → SignalHandler Handle × Option Handle
  stopping this = (record this { handle = none }, this.handle)
