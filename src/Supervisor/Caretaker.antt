-- ===== src/Supervisor/Caretaker.antt =====
-- src/supervisor/caretaker.rs: the actor that looks after one program. A child and a receiver are
-- numbers; the addresses that an actor holds are left out, and what it sends is in the results.
pub mod Run
pub mod System
pub mod Invariant
pub mod Endings
pub mod Transitions
pub mod Panics
pub mod Endless
pub mod Terminating
pub mod Children
pub mod GivingUp
mod Tests
use blahaj.Prelude.{
  ℕ, suc, List, [], ◌∷◌, ◌++◌, Bool, true, false, Option, none, some, Outcome, ok, panic, expect,
  ◌>>=◌, if◌then◌else◌, ◌==◌, map,
}
use blahaj.Prelude.Text.{Str, codes}
use blahaj.Config.{Program, Env}
use blahaj.Supervisor.Lifecycle.{HealthState, Lifecycle, starting, running}

-- `stop_tx` tells whether the sender is there; `stopped_tx` is the sender of the broadcast with
-- the number of its receivers.
pub record CaretakerActor : Type 0 where
  pub name : Str
  pub program : Program
  pub status : Lifecycle
  pub stop_tx : Bool
  pub stopped_tx : Option ℕ

unfoldable pub new : Str → Program → CaretakerActor
new name program = record {
  name = name;
  program = program;
  status = starting;
  stop_tx = false;
  stopped_tx = none;
}

-- `Actor::started`: both channels are made, and `Daemon` is sent to the actor itself. The first
-- receiver of the broadcast is dropped at once.
unfoldable pub started : CaretakerActor → CaretakerActor
started this = record this { stop_tx = true; stopped_tx = some 0 }

-- `send` of the broadcast fails without a receiver.
unfoldable pub broadcast_stopped : CaretakerActor → Outcome CaretakerActor
broadcast_stopped this = do
  receivers ← expect this.stopped_tx
  if receivers == 0 then panic else ok (record this { stop_tx = false; stopped_tx = none })

-- What a `Wait` is answered with: at once, or when the broadcast is sent.
pub data WaitAnswer : Type 0 where
  at_once when_stopped : WaitAnswer

unfoldable pub handle_wait : CaretakerActor → CaretakerActor × WaitAnswer
handle_wait this = elim this.stopped_tx [
  | none ↦ (this, at_once)
  | some receivers ↦ (record this { stopped_tx = some (suc receivers) }, when_stopped)
]

-- `heard`: whether the receiver of the stop signal is there. A `Wait` to the actor itself follows.
unfoldable pub handle_terminate : Bool → CaretakerActor → Outcome CaretakerActor
handle_terminate heard this =
    if this.stop_tx
    then (if heard then ok (record this { stop_tx = false }) else panic)
    else ok this

abbrev pub is_live : Lifecycle → Bool
is_live (running _) = true
is_live starting = true
is_live _ = false

unfoldable pub handle_set_health_state : HealthState → CaretakerActor → CaretakerActor
handle_set_health_state state this =
    if is_live this.status then record this { status = running state } else this

unfoldable pub handle_get_status : CaretakerActor → Lifecycle
handle_get_status this = this.status

-- A command as it is spawned: a variable with `none` is removed from the environment. The standard
-- input is null, the two outputs are pipes.
pub record Command : Type 0 where
  pub cmd : Str
  pub args : List Str
  pub env : List (Str × Option Str)

unfoldable pub build_command : Program → Command
build_command program = record {
  cmd = program.command.cmd;
  args = program.command.args;
  env = map (λ e. (e.0, e.1.value)) program.env;
}
