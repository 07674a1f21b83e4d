-- ===== src/Supervisor/Checked.antt =====
-- A caretaker (src/supervisor/caretaker.rs) with the health actors that it starts
-- (src/supervisor/health.rs): one for each child, which tells the caretaker of its checks, and sends
-- the signal that the watching of the child polls.
pub mod Fit
pub mod Counted
pub mod Excused
pub mod Failing
pub mod Runs
pub mod Restarts
mod Tests
use blahaj.Prelude.{
  ℕ, zero, suc, ◌+◌, List, [], ◌∷◌, ◌++◌, Bool, true, false, not, ◌&&◌, Option, none, some, Outcome,
  ok, panic, ◌>>=◌, if◌then◌else◌,
}
use blahaj.Prelude.Text.{Str}
use blahaj.Config.{Program}
use blahaj.Proxy.{Scheme}
use blahaj.Supervisor.Lifecycle.{HealthState, unhealthy}
use blahaj.Supervisor.Health
use blahaj.Supervisor.Health.{
  HealthConfig, HealthActor, Effect, set_health_state, Reply, Called, on_reply,
}
use blahaj.Supervisor.Futs.{Waited, FutureSlot, polling}
use blahaj.Supervisor.Caretaker.{CaretakerActor, Command}
use blahaj.Supervisor.Caretaker.Run.{Receiver, Spawned, Begun, watch, begin_run}
use blahaj.Supervisor.Caretaker.System
use blahaj.Supervisor.Caretaker.System.{
  daemon_phase, is_watching, is_asked, Phase, asked, watching, Daemon, active, System, Event,
  handle_run, poll_watch, set_health_msg, step,
}

-- A health actor: whether its context was started, whether it is there, and whether the caretaker has
-- told it to stop; and the replies that its callbacks were called with, the last one first.
pub record Check : Type 0 where
  pub actor : HealthActor
  pub begun : Bool
  pub live : Bool
  pub told_to_stop : Bool
  pub replies : List Reply

-- The actors that were started, the last one first, and what they sent to the caretaker that it has
-- not handled.
pub record Checked : Type 0 where
  pub system : System
  pub checks : List Check
  pub inbox : List HealthState

unfoldable pub start : Str → Program → Receiver → Checked
start name program stop_rx = record {
  system = System.start name program stop_rx;
  checks = [];
  inbox = [];
}

-- The signal is ready once its sender was used, or dropped with the actor that had it.
abbrev pub is_ready : List Check → Bool
is_ready [] = false
is_ready (c ∷ _) = not (c.live && c.actor.stop_tx)

abbrev pub told_off : List Check → List Check
told_off [] = []
told_off (c ∷ checks) = record c { told_to_stop = true } ∷ checks

abbrev pub states_of : List Effect → List HealthState
states_of [] = []
states_of (set_health_state state ∷ effects) = state ∷ states_of effects
states_of (_ ∷ effects) = states_of effects

-- What happens at a health actor: its context starts, a request of it is replied to, or it handles
-- that it is to stop.
pub data CheckEvent : Type 0 where
  begins : CheckEvent
  replied : Reply → CheckEvent
  stops : CheckEvent

-- What happens next: something at the caretaker, the next message of a health actor to it, or
-- something at the health actor of a place.
pub data Happening : Type 0 where
  own : Event → Happening
  deliver : Happening
  check_at : ℕ → CheckEvent → Happening

module _ (build_uri : Scheme → Str → Str → Option Str) (spawn : Command → Spawned)
    (signal_name : ℕ → Option Str) (is_success : ℕ → Bool) (status_text : ℕ → Str) where
  -- The actor that the handler of `Run` starts, if a child was spawned.
  made_by : Str → Outcome (CaretakerActor × Begun) → List Check
  made_by name (ok (_, watch child config)) =
      record {
        actor = Health.new name config;
        begun = false;
        live = true;
        told_to_stop = false;
        replies = [];
      }
      ∷ []
  made_by name _ = []

  made : Event → System → List Check
  unfolding made_by
  made (handle_run _) s = elim (is_asked (daemon_phase s.daemon)) [
    | none ↦ []
    | some stop_rx ↦ made_by s.actor.name (begin_run build_uri spawn stop_rx s.actor)
  ]
  made _ s = []

  -- The watching polls the signal of the actor that was started last.
  heard : List Check → Event → Event
  heard checks (poll_watch _ wait) = poll_watch (is_ready checks) wait
  heard checks e = e

  -- The actor is told to stop once the watching is over.
  stopped : Daemon → Daemon → List Check → List Check
  stopped before after checks =
      if is_watching (daemon_phase before) && not (is_watching (daemon_phase after))
      then told_off checks
      else checks

  on_own : Event → Checked → Outcome Checked
  unfolding made heard stopped
  on_own (set_health_msg _) w = ok w
  on_own e w = do
    s ← step build_uri spawn signal_name (heard w.checks e) w.system
    ok (record {
      system = s;
      checks = made e w.system ++ stopped w.system.daemon s.daemon w.checks;
      inbox = w.inbox;
    })

  on_deliver : List HealthState → Checked → Outcome Checked
  on_deliver [] w = ok w
  on_deliver (state ∷ rest) w = do
    s ← step build_uri spawn signal_name (set_health_msg state) w.system
    ok (record w { system = s; inbox = rest })

  -- A callback that panics has told the caretaker before, and takes the actor with it.
  replied_to : Check → Outcome Called → Check × List HealthState
  replied_to c (ok called) =
      (record c { actor = called.actor; live = not called.stopped }, states_of called.effects)
  replied_to c panic = (
    record c {
      actor = record c.actor { unhealthy_count = c.actor.unhealthy_count + 1 };
      live = false;
    },
    unhealthy ∷ [],
  )

  -- `there`: whether the receiver of its signal is.
  on_check : Bool → CheckEvent → Check → Check × List HealthState
  unfolding replied_to
  on_check there begins c =
      if c.live && not c.begun
      then (record c { begun = true }, states_of (Health.started c.actor))
      else (c, [])
  on_check there (replied reply) c =
      if c.live && c.begun
      then (elim c.actor.config [
        | none ↦ (c, [])
        | some config ↦
            replied_to (record c { replies = reply ∷ c.replies })
              (on_reply is_success status_text there config c.actor reply)
      ])
      else (c, [])
  on_check there stops c = if c.told_to_stop then (record c { live = false }, []) else (c, [])

  -- The receiver of the signal is there while the child of the actor is watched.
  on_place : Bool → ℕ → CheckEvent → List Check → List Check × List HealthState
  unfolding on_check
  on_place there place e [] = ([], [])
  on_place there zero e (c ∷ checks) =
      let result = on_check there e c in (result.0 ∷ checks, result.1)
  on_place there (suc place) e (c ∷ checks) =
      let result = on_place false place e checks in (c ∷ result.0, result.1)

  unfoldable pub happen : Happening → Checked → Outcome Checked
  unfolding on_own on_deliver on_place
  happen (own e) w = on_own e w
  happen deliver w = on_deliver w.inbox w
  happen (check_at place e) w =
      let result = on_place (is_watching (daemon_phase w.system.daemon)) place e w.checks in
      ok (record w { checks = result.0; inbox = w.inbox ++ result.1 })

  unfoldable pub happen_all : List Happening → Checked → Outcome Checked
  unfolding happen
  happen_all [] w = ok w
  happen_all (h ∷ later) w = do next ← happen h w; happen_all later next
