-- ===== src/Supervisor/Checked/Fit.antt =====
-- What holds of a caretaker with its health actors (src/supervisor/caretaker.rs,
-- src/supervisor/health.rs), and is kept by what happens at the caretaker.
use blahaj.Prelude.{
  ℕ, ◌*◌, ◌^◌, ◌≤◌, List, [], ◌∷◌, ◌≡◌, ◌⊎◌, Bool, true, false, Option, some, Outcome, ok, Ensures,
  subst, arith,
}
use blahaj.Prelude.Text.{Str}
use blahaj.Config.{Program}
use blahaj.Proxy.{Scheme}
use blahaj.Supervisor.Lifecycle.{HealthState}
use blahaj.Supervisor.Health
use blahaj.Supervisor.Health.{
  HealthConfig, HealthActor, Reply, Called, on_reply, duration_end, times,
}
use blahaj.Supervisor.Futs.{Waited, poll_repeated, poll_abort, new_repeated, Poll}
use blahaj.Supervisor.Caretaker.{
  Command, handle_terminate, handle_wait, handle_set_health_state, broadcast_stopped,
}
use blahaj.Supervisor.Caretaker.Run.{
  Receiver, RunResult, was_unhealthy, success, Spawned, health_config, begin_run, after_watch,
  conclude, finish_run, daemon_future, finish_daemon,
}
use blahaj.Supervisor.Caretaker.System.{
  daemon_phase, Phase, watching, resolved, stopping, reported, handle_daemon, poll_daemon,
  handle_run, poll_watch, look_at_end, child_gone, terminate_msg, wait_msg, set_health_msg, step,
}
use blahaj.Supervisor.Checked.{Check, Checked, Happening, own, deliver, happen}

-- As many failures as make up the grace period, or as no `u32` counts.
abbrev pub IsFailing : HealthConfig → ℕ → Type 0
IsFailing config count = (config.grace_period ≤ config.interval * count) ⊎ (2 ^ 32 ≤ count)

module _ (build_uri : Scheme → Str → Str → Option Str) (program : Program) where
  -- The actor is gone, and its program has a check that failed too often.
  pub record IsExcused (c : Check) : Type 0 where
    pub gone : c.live ≡ false
    pub config : HealthConfig
    pub configured : health_config build_uri program.http ≡ ok (some config)
    pub failing : IsFailing config c.actor.unhealthy_count

  -- The actor of a child that is watched.
  pub record IsChecking (c : Check) : Type 0 where
    pub config : Option HealthConfig
    pub configured : health_config build_uri program.http ≡ ok config
    pub same : c.actor.config ≡ config
    pub untold : c.told_to_stop ≡ false
    pub works : ((c.live ≡ true) × (c.actor.stop_tx ≡ true)) ⊎ IsExcused c

  abbrev pub Newest : (Check → Type 0) → List Check → Type 0
  Newest P [] = ⊥
  Newest P (c ∷ checks) = P c

  abbrev pub ResultFits : RunResult → List Check → Type 0
  ResultFits (was_unhealthy _) checks = Newest IsExcused checks
  ResultFits _ checks = Unit

  abbrev pub PhaseFits : Option Phase → List Check → Type 0
  PhaseFits (some (watching _)) checks = Newest IsChecking checks
  PhaseFits (some (resolved (success _))) checks = ⊥
  PhaseFits (some (stopping result)) checks = ResultFits result checks
  PhaseFits (some (reported result)) checks = ResultFits result checks
  PhaseFits _ checks = Unit

  pub record IsFit (w : Checked) : Type 0 where
    pub same_program : w.system.actor.program ≡ program
    pub phase : PhaseFits (daemon_phase w.system.daemon) w.checks

module _ (build_uri : Scheme → Str → Str → Option Str) (spawn : Command → Spawned)
    (signal_name : ℕ → Option Str) (is_success : ℕ → Bool) (status_text : ℕ → Str)
    (program : Program) where
  abbrev next : Happening → Checked → Outcome Checked
  next = happen build_uri spawn signal_name is_success status_text

  abbrev Fit : Checked → Type 0
  Fit = IsFit build_uri program

  module _ (w v : Checked) (fit : Fit w) where
    pub handle_daemon-IsFit : next (own handle_daemon) w ≡ ok v → Fit v
    unfolding happen step daemon_future new_repeated
    handle_daemon-IsFit e = ground (arith, fit)

    pub poll_daemon-IsFit :
        (now : ℕ) (slept : Bool) → next (own (poll_daemon now slept)) w ≡ ok v → Fit v
    unfolding happen step poll_repeated finish_daemon broadcast_stopped
    poll_daemon-IsFit now slept e = ground (arith, fit)

    pub handle_run-IsFit : (rx : Receiver) → next (own (handle_run rx)) w ≡ ok v → Fit v
    unfolding happen step begin_run Health.new
    handle_run-IsFit rx e = ground (arith, fit)

    pub poll_watch-IsFit :
        (unhealthy : Bool) (wait : Poll Waited)
        → next (own (poll_watch unhealthy wait)) w ≡ ok v
        → Fit v
    unfolding happen step poll_abort after_watch conclude finish_run
    poll_watch-IsFit unhealthy wait e = ground (arith, fit)

    pub look_at_end-IsFit : next (own look_at_end) w ≡ ok v → Fit v
    unfolding happen step after_watch conclude finish_run
    look_at_end-IsFit e = ground (arith, fit)

    pub child_gone-IsFit : next (own child_gone) w ≡ ok v → Fit v
    unfolding happen step finish_run
    child_gone-IsFit e = ground (arith, fit)

    pub terminate-IsFit : next (own terminate_msg) w ≡ ok v → Fit v
    unfolding happen step handle_terminate
    terminate-IsFit e = ground (arith, fit)

    pub wait-IsFit : next (own wait_msg) w ≡ ok v → Fit v
    unfolding happen step handle_wait
    wait-IsFit e = ground (arith, fit)

    pub set_health-IsFit :
        (state : HealthState) → next (own (set_health_msg state)) w ≡ ok v → Fit v
    unfolding happen
    set_health-IsFit state e = subst (Ensures Fit) e fit

    pub deliver-IsFit : next deliver w ≡ ok v → Fit v
    unfolding happen step handle_set_health_state
    deliver-IsFit e = ground (arith, fit)
