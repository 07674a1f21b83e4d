-- ===== src/Supervisor/Checked/Excused.antt =====
-- Why a child is stopped as unhealthy (src/supervisor/health.rs, src/supervisor/caretaker.rs).
use blahaj.Prelude.{
  ℕ, zero, suc, ◌≤◌, List, [], ◌∷◌, ◌≡◌, refl, inl, inr, Bool, true, false, Option, none, some,
  Outcome, ok, Ensures, Outcome-cases, Option-cases, All, subst, arith,
}
use blahaj.Prelude.Text.{Str}
use blahaj.Config.{Program}
use blahaj.Proxy.{Scheme}
use blahaj.Supervisor.Health.{HealthConfig, on_reply, duration_end, times}
use blahaj.Supervisor.Caretaker.{Command, new, started}
use blahaj.Supervisor.Caretaker.Run.{
  Receiver, was_unhealthy, success, failure, Spawned, health_config,
}
use blahaj.Supervisor.Caretaker.System
use blahaj.Supervisor.Caretaker.System.{
  daemon_phase, is_watching, Phase, asked, watching, resolved, stopping, reported, Daemon, active,
  System, Event, handle_daemon, poll_daemon, handle_run, poll_watch, look_at_end, child_gone,
  terminate_msg, wait_msg, set_health_msg, step,
}
use blahaj.Supervisor.Checked.{
  Check, Checked, start, on_check, on_place, CheckEvent, begins, replied, stops, Happening, own,
  deliver, check_at, happen, happen_all,
}
use blahaj.Supervisor.Checked.Counted.{failing_row, IsCounted, happen_all-Counted}
use blahaj.Supervisor.Checked.Fit.{
  IsFailing, IsExcused, IsChecking, Newest, PhaseFits, IsFit, handle_daemon-IsFit,
  poll_daemon-IsFit, handle_run-IsFit, poll_watch-IsFit, look_at_end-IsFit, child_gone-IsFit,
  terminate-IsFit, wait-IsFit, set_health-IsFit, deliver-IsFit,
}

-- The result of a run that was told to be unhealthy.
abbrev pub is_unhealthy : Option Phase → Bool
is_unhealthy (some (stopping (was_unhealthy _))) = true
is_unhealthy (some (reported (was_unhealthy _))) = true
is_unhealthy _ = false

module _ (build_uri : Scheme → Str → Str → Option Str) (spawn : Command → Spawned)
    (signal_name : ℕ → Option Str) (is_success : ℕ → Bool) (status_text : ℕ → Str)
    (program : Program) where
  abbrev next : Happening → Checked → Outcome Checked
  next = happen build_uri spawn signal_name is_success status_text

  abbrev Fit : Checked → Type 0
  Fit = IsFit build_uri program

  on_check-IsExcused :
      (there : Bool) (e : CheckEvent) (c : Check)
      → IsExcused build_uri program c
      → IsExcused build_uri program
          (on_check build_uri spawn signal_name is_success status_text there e c).0
  unfolding on_check
  on_check-IsExcused there begins c excused = ground (arith, excused)
  on_check-IsExcused there (replied reply) c excused = ground (arith, excused)
  on_check-IsExcused there stops c excused = ground (arith, excused)

  abbrev at_place : Bool → ℕ → CheckEvent → List Check → List Check
  at_place there place e checks =
      (on_place build_uri spawn signal_name is_success status_text there place e checks).0

  at_place-Newest :
      (P : Check → Type 0) (there : Bool) (place : ℕ) (e : CheckEvent) (checks : List Check)
      → ((c : Check)
          → P c
          → P (on_check build_uri spawn signal_name is_success status_text there e c).0)
      → Newest build_uri program P checks
      → Newest build_uri program P (at_place there place e checks)
  unfolding on_place
  at_place-Newest P there zero e (c ∷ checks) keeps h = keeps c h
  at_place-Newest P there (suc place) e (c ∷ checks) keeps h = h
  at_place-Newest P there place e [] keeps h = h

  -- The grace period is a `Duration`.
  module _
      (bounded : (config : HealthConfig)
        → health_config build_uri program.http ≡ ok (some config)
        → config.grace_period ≤ duration_end) where
    on_check-IsChecking :
        (e : CheckEvent) (c : Check)
        → IsChecking build_uri program c
        → IsChecking build_uri program
            (on_check build_uri spawn signal_name is_success status_text true e c).0
    unfolding on_check on_reply times
    on_check-IsChecking begins c checking = ground (arith, checking)
    on_check-IsChecking (replied reply) c checking = elim (Option-cases c.actor.config) [
      | inl none_there ↦ ground (arith, checking, none_there)
      | inr (config, there) ↦ ground (arith, checking, there, bounded config)
    ]
    on_check-IsChecking stops c checking = ground (arith, checking)

    at_place-PhaseFits :
        (phase : Option Phase) (place : ℕ) (e : CheckEvent) (checks : List Check)
        → PhaseFits build_uri program phase checks
        → PhaseFits build_uri program phase (at_place (is_watching phase) place e checks)
    at_place-PhaseFits (some (watching fut)) place e checks h =
        at_place-Newest _ true place e checks (on_check-IsChecking e) h
    at_place-PhaseFits (some (stopping (was_unhealthy rx))) place e checks h =
        at_place-Newest _ false place e checks (on_check-IsExcused false e) h
    at_place-PhaseFits (some (reported (was_unhealthy rx))) place e checks h =
        at_place-Newest _ false place e checks (on_check-IsExcused false e) h
    at_place-PhaseFits (some (stopping result)) place e checks h = tt
    at_place-PhaseFits (some (reported result)) place e checks h = tt
    at_place-PhaseFits (some (resolved (success result))) place e checks h = absurd h
    at_place-PhaseFits (some (resolved (failure rx error))) place e checks h = tt
    at_place-PhaseFits (some (asked rx)) place e checks h = tt
    at_place-PhaseFits none place e checks h = tt

    check_at-IsFit :
        (place : ℕ) (e : CheckEvent) (w v : Checked)
        → Fit w
        → next (check_at place e) w ≡ ok v
        → Fit v
    unfolding happen
    check_at-IsFit place e w v fit moved = subst (Ensures Fit) moved (record {
      same_program = fit.same_program;
      phase = at_place-PhaseFits (daemon_phase w.system.daemon) place e w.checks fit.phase;
    })

    pub happen-IsFit : (h : Happening) (w v : Checked) → Fit w → next h w ≡ ok v → Fit v
    happen-IsFit (own handle_daemon) w v fit =
        handle_daemon-IsFit build_uri spawn signal_name is_success status_text program w v fit
    happen-IsFit (own (poll_daemon now slept)) w v fit =
        poll_daemon-IsFit build_uri spawn signal_name is_success status_text program w v fit now
          slept
    happen-IsFit (own (handle_run rx)) w v fit =
        handle_run-IsFit build_uri spawn signal_name is_success status_text program w v fit rx
    happen-IsFit (own (poll_watch signal wait)) w v fit =
        poll_watch-IsFit build_uri spawn signal_name is_success status_text program w v fit signal
          wait
    happen-IsFit (own look_at_end) w v fit =
        look_at_end-IsFit build_uri spawn signal_name is_success status_text program w v fit
    happen-IsFit (own child_gone) w v fit =
        child_gone-IsFit build_uri spawn signal_name is_success status_text program w v fit
    happen-IsFit (own terminate_msg) w v fit =
        terminate-IsFit build_uri spawn signal_name is_success status_text program w v fit
    happen-IsFit (own wait_msg) w v fit =
        wait-IsFit build_uri spawn signal_name is_success status_text program w v fit
    happen-IsFit (own (set_health_msg state)) w v fit =
        set_health-IsFit build_uri spawn signal_name is_success status_text program w v fit state
    happen-IsFit deliver w v fit =
        deliver-IsFit build_uri spawn signal_name is_success status_text program w v fit
    happen-IsFit (check_at place e) w v fit = check_at-IsFit place e w v fit

    start-IsFit : (name : Str) (stop_rx : Receiver) → Fit (start name program stop_rx)
    unfolding start System.start started new
    start-IsFit name stop_rx = ground arith

    happen_all-IsFit :
        (hs : List Happening) (w v : Checked)
        → Fit w
        → happen_all build_uri spawn signal_name is_success status_text hs w ≡ ok v
        → Fit v
    unfolding happen_all
    happen_all-IsFit [] w v fit e = subst (Ensures Fit) e fit
    happen_all-IsFit (h ∷ hs) w v fit e = elim (Outcome-cases (next h w)) [
      | inl panics ↦ cc (rw (panics, happen_all) at e)
      | inr (u, moved) ↦
          happen_all-IsFit hs u v (happen-IsFit h w u fit moved) (rw (moved, happen_all) at e)
    ]

    newest-IsExcused :
        (phase : Option Phase) (checks : List Check)
        → PhaseFits build_uri program phase checks
        → is_unhealthy phase ≡ true
        → (c : Check) × (rest : List Check) × (checks ≡ c ∷ rest) × IsExcused build_uri program c
    newest-IsExcused (some (stopping (was_unhealthy rx))) (c ∷ checks) fits e =
        (c, checks, refl, fits)
    newest-IsExcused (some (reported (was_unhealthy rx))) (c ∷ checks) fits e =
        (c, checks, refl, fits)
    newest-IsExcused phase checks fits e = ground (arith, fits, e)

    -- A child is stopped as unhealthy only where its program has a health check, and the checks of
    -- its health actor that have failed since the last one that succeeded are so many that they make
    -- up the grace period (or are no `u32` any more): in whatever order the actors, their messages and
    -- the replies come, and where the grace period is a `Duration`. So a program without a health
    -- check is never stopped for its health.
    pub unhealthy_excused :
        (name : Str) (stop_rx : Receiver) (hs : List Happening) (w : Checked)
        → happen_all build_uri spawn signal_name is_success status_text hs
            (start name program stop_rx)
          ≡ ok w
        → is_unhealthy (daemon_phase w.system.daemon) ≡ true
        → (c : Check) × (rest : List Check) × (config : HealthConfig) × (w.checks ≡ c ∷ rest)
          × (health_config build_uri program.http ≡ ok (some config))
          × IsFailing config (failing_row is_success c.replies)
    unfolding start
    unhealthy_excused name stop_rx hs w e sick =
        let fit = happen_all-IsFit hs _ w (start-IsFit name stop_rx) e in
        let counted =
          happen_all-Counted build_uri spawn signal_name is_success status_text hs
            (start name program stop_rx) w tt e in
        let (c, rest, same, excused) = newest-IsExcused _ w.checks fit.phase sick in
        let row = (subst (All (IsCounted is_success)) same counted).0 in
        (
          c,
          rest,
          excused.config,
          same,
          excused.configured,
          subst (IsFailing excused.config) row excused.failing,
        )
