-- ===== src/Supervisor/Caretaker/Run.antt =====
-- src/supervisor/caretaker.rs and terminate_ext.rs: one run of the program, and the daemon that
-- repeats the runs.
use blahaj.Prelude.{
  ℕ, List, [], ◌∷◌, ◌++◌, Bool, true, false, Option, none, some, Outcome, ok, expect, ◌>>=◌,
  if◌then◌else◌,
}
use blahaj.Prelude.Text.{Str, codes}
use blahaj.Text.{trim_start}
use blahaj.Error.{SupervisorError, display_supervisor_error}
use blahaj.Logger
use blahaj.Logger.{Custom, error}
use blahaj.Config.{HttpRelay, HealthCheck}
use blahaj.Proxy.{slash, Scheme, http, https, authority_text}
use blahaj.Supervisor.Lifecycle.{
  Lifecycle, unknown, starting, running, terminating, terminated, failed,
}
use blahaj.Supervisor.Retry
use blahaj.Supervisor.Health.{HealthConfig}
use blahaj.Supervisor.Futs.{
  WaitAbortResult, unhealthy_signal_received, stop_signal_received, exit, exit_with_error,
  RepeatedActFut, new_repeated,
}
use blahaj.Supervisor.Caretaker.{CaretakerActor, Command, build_command, broadcast_stopped}

abbrev pub Child : Type 0
Child = ℕ

abbrev pub Receiver : Type 0
Receiver = ℕ

pub data RunResult : Type 0 where
  normal_exit : Receiver → RunResult
  was_terminated : RunResult
  was_unhealthy : Receiver → RunResult
  ended_in : Receiver → SupervisorError → RunResult

pub data SpawnRunOutput : Type 0 where
  success : WaitAbortResult Child Receiver → SpawnRunOutput
  failure : Receiver → SupervisorError → SpawnRunOutput

-- `build_uri` is the builder of the crate `http`, which gives the text of a Uri.
module _ (build_uri : Scheme → Str → Str → Option Str) where
  unfoldable pub uri_for_check : Bool → ℕ → Str → Outcome Str
  uri_for_check secure port path = expect (
      build_uri (if secure then https else http) (authority_text port)
        (slash ∷ trim_start slash path))

  -- The configuration of the health actor, if the program has a check.
  health_config_of : HttpRelay → Option HealthCheck → Outcome (Option HealthConfig)
  health_config_of relay none = ok none
  health_config_of relay (some check) = do
    uri ← uri_for_check relay.https relay.port check.path
    ok (some (record { uri = uri; interval = check.interval; grace_period = check.grace }))

  unfoldable pub health_config : Option HttpRelay → Outcome (Option HealthConfig)
  unfolding health_config_of
  health_config none = ok none
  health_config (some relay) = health_config_of relay relay.health_check

-- What spawning a command gives: a child, or an error.
pub data Spawned : Type 0 where
  spawned : Child → Spawned
  not_spawned : Str → Spawned

-- What the handler of `Run` begins: the child is watched, with the configuration that its health
-- actor is started with, or the run is over.
pub data Begun : Type 0 where
  watch : Child → Option HealthConfig → Begun
  give_back : SpawnRunOutput → Begun

abbrev checked_status : Option HealthConfig → Lifecycle → Lifecycle
checked_status none status = status
checked_status (some _) status = running unknown

module _ (build_uri : Scheme → Str → Str → Option Str) (spawn : Command → Spawned) where
  -- `Handler<Run>::handle`, up to the future that it returns.
  unfoldable pub begin_run : Receiver → CaretakerActor → Outcome (CaretakerActor × Begun)
  unfolding health_config
  begin_run stop_rx this = elim (spawn (build_command this.program)) [
    | not_spawned e ↦
        ok
          (record this { status = starting }, give_back (failure stop_rx (SupervisorError.spawn e)))
    | spawned child ↦ do
      config ← health_config build_uri this.program.http
      ok (record this { status = checked_status config starting }, watch child config)
  ]

-- The output says that the child was told to stop, by a stop signal or an unhealthy one.
abbrev is_interrupted : SpawnRunOutput → Bool
is_interrupted (success (stop_signal_received _)) = true
is_interrupted (success (unhealthy_signal_received _ _)) = true
is_interrupted _ = false

-- The first `map` behind the watching: the status of a child that is being stopped.
unfoldable pub after_watch : SpawnRunOutput → CaretakerActor → CaretakerActor
after_watch res this = if is_interrupted res then record this { status = terminating } else this

-- The `then` behind it: the result of the run, and the child that is to be stopped first.
unfoldable pub conclude : SpawnRunOutput → RunResult × Option Child
conclude (success (stop_signal_received child)) = (was_terminated, some child)
conclude (success (unhealthy_signal_received stop_rx child)) = (was_unhealthy stop_rx, some child)
conclude (success (exit stop_rx)) = (normal_exit stop_rx, none)
conclude (success (exit_with_error stop_rx e)) = (ended_in stop_rx e, none)
conclude (failure stop_rx e) = (ended_in stop_rx e, none)

-- The last `map`: the process is dead.
unfoldable pub finish_run : CaretakerActor → CaretakerActor
finish_run this = record this { status = terminated }

pub data Sent : Type 0 where
  sigterm sigkill : Child → Sent

-- `TerminateExt::terminate`, of a child that has a process id or has none any more.
unfoldable pub terminate : Option ℕ → List Sent
terminate none = []
terminate (some pid) = sigterm pid ∷ []

-- `in_time`: whether the child exits within the grace period, after which it is killed.
unfoldable pub ensure_stop : Bool → Child → Option ℕ → List Sent
unfolding terminate
ensure_stop in_time child pid = terminate pid ++ (if in_time then [] else sigkill child ∷ [])

-- What a run comes to for the daemon: a log line, and the receiver to go on with.
unfoldable pub one_round : Str → RunResult → Custom × Option Receiver
one_round name (normal_exit stop_rx) =
    (Logger.new name (codes "Exits without error."), some stop_rx)
one_round name (was_unhealthy stop_rx) =
    (Logger.new name (codes "Terminated by caretaker."), some stop_rx)
one_round name was_terminated = (Logger.new name (codes "Terminated by caretaker."), none)
one_round name (ended_in stop_rx e) = (
  Logger.new name (codes "Exits with error: " ++ (display_supervisor_error e ++ codes ".")),
  some stop_rx,
)

-- `Handler<Daemon>::handle`: the repeated future that it makes.
unfoldable pub daemon_future :
    {Fut : Type 0} → Receiver → CaretakerActor → RepeatedActFut Fut Receiver
daemon_future stop_rx this =
    new_repeated stop_rx (Retry.new [] this.program.retry.window this.program.retry.count)
      this.program.retry.delay

-- The `map` behind it: the program is given up if the answer is `false`.
unfoldable pub finish_daemon : Bool → CaretakerActor → Outcome CaretakerActor
finish_daemon res this = broadcast_stopped (if res then this else record this { status = failed })

-- The line that is logged when the program is given up.
unfoldable pub give_up_line : Bool → Str → List Custom
give_up_line true name = []
give_up_line false name =
    Logger.new_with_level error name (codes "Retry limits exceeded, giving up") ∷ []
