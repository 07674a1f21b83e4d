-- ===== src/Supervisor/Checked/Counted.antt =====
-- What the health actors of a caretaker have counted (src/supervisor/health.rs).
use blahaj.Prelude.{
  ℕ, zero, suc, List, [], ◌∷◌, ◌++◌, ◌≡◌, Bool, true, false, not, inl, inr, Option, Outcome, ok,
  panic, Ensures, ◌>>=◌, Outcome-cases, All, All-append, if◌then◌else◌, subst, arith,
}
use blahaj.Prelude.Text.{Str}
use blahaj.Proxy.{Scheme}
use blahaj.Supervisor.Health
use blahaj.Supervisor.Health.{Reply, not_sent, on_reply, times, check}
use blahaj.Supervisor.Caretaker.{Command}
use blahaj.Supervisor.Caretaker.Run.{Spawned, begin_run}
use blahaj.Supervisor.Caretaker.System.{Daemon, System, Event, set_health_msg}
use blahaj.Supervisor.Checked.{
  Check, Checked, told_off, on_check, on_place, made_by, made, stopped, CheckEvent, begins, stops,
  replied, Happening, own, deliver, check_at, happen, happen_all,
}

module _ (is_success : ℕ → Bool) where
  -- A reply that is none, or whose status is no success.
  abbrev pub fails : Reply → Bool
  fails (not_sent e) = true
  fails (Reply.replied code) = not (is_success code)

  -- How many replies have failed since the last success, the last reply first.
  abbrev pub failing_row : List Reply → ℕ
  failing_row [] = 0
  failing_row (reply ∷ replies) =
      let rest = failing_row replies in if fails reply then suc rest else 0

  abbrev pub IsCounted : Check → Type 0
  IsCounted c = c.actor.unhealthy_count ≡ failing_row c.replies

module _ (build_uri : Scheme → Str → Str → Option Str) (spawn : Command → Spawned)
    (signal_name : ℕ → Option Str) (is_success : ℕ → Bool) (status_text : ℕ → Str) where
  abbrev next : Happening → Checked → Outcome Checked
  next = happen build_uri spawn signal_name is_success status_text

  abbrev Counted : List Check → Type 0
  Counted = All (IsCounted is_success)

  on_check-IsCounted :
      (there : Bool) (e : CheckEvent) (c : Check)
      → IsCounted is_success c
      → IsCounted is_success
          (on_check build_uri spawn signal_name is_success status_text there e c).0
  unfolding on_check on_reply times check
  on_check-IsCounted there begins c counted = ground (arith, counted)
  on_check-IsCounted there (replied reply) c counted = ground (arith, counted)
  on_check-IsCounted there stops c counted = ground (arith, counted)

  on_place-Counted :
      (there : Bool) (place : ℕ) (e : CheckEvent) (checks : List Check)
      → Counted checks
      → Counted (on_place build_uri spawn signal_name is_success status_text there place e checks).0
  unfolding on_place
  on_place-Counted there place e [] h = tt
  on_place-Counted there zero e (c ∷ checks) (k, h) = (on_check-IsCounted there e c k, h)
  on_place-Counted there (suc place) e (c ∷ checks) (k, h) =
      (k, on_place-Counted false place e checks h)

  told_off-Counted : (checks : List Check) → Counted checks → Counted (told_off checks)
  told_off-Counted [] h = h
  told_off-Counted (c ∷ checks) h = h

  stopped-Counted :
      (before after : Daemon) (checks : List Check)
      → Counted checks
      → Counted (stopped build_uri spawn signal_name is_success status_text before after checks)
  unfolding stopped
  stopped-Counted before after checks h = ground (arith, h, told_off-Counted checks)

  made-Counted :
      (e : Event) (s : System)
      → Counted (made build_uri spawn signal_name is_success status_text e s)
  unfolding made made_by begin_run Health.new
  made-Counted e s = ground arith

  -- What happens at the caretaker, with what is made and told to stop.
  own_Counted :
      (e : Event) (o : Outcome System) (w v : Checked)
      → Counted w.checks
      → (do
        s ← o
        ok (record {
          system = s;
          checks =
              made build_uri spawn signal_name is_success status_text e w.system
              ++ stopped build_uri spawn signal_name is_success status_text w.system.daemon s.daemon
                  w.checks;
          inbox = w.inbox;
        }))
        ≡ ok v
      → Counted v.checks
  own_Counted e panic w v h moved = absurd (ground (arith, moved))
  own_Counted e (ok s) w v h moved = subst (Ensures (λ (u : Checked). Counted u.checks)) moved (
      All-append (IsCounted is_success) _ _ (made-Counted e w.system)
        (stopped-Counted w.system.daemon s.daemon w.checks h))

  happen-Counted :
      (h : Happening) (w v : Checked) → Counted w.checks → next h w ≡ ok v → Counted v.checks
  unfolding happen
  happen-Counted (own (set_health_msg state)) w v counted moved = ground (arith, counted, moved)
  happen-Counted (own e) w v counted moved = own_Counted e _ w v counted moved
  happen-Counted deliver w v counted moved = ground (arith, counted, moved)
  happen-Counted (check_at place e) w v counted moved =
      subst (Ensures (λ (u : Checked). Counted u.checks)) moved
        (on_place-Counted _ place e w.checks counted)

  -- In whatever order the actors, their messages and the replies come, each health actor has counted
  -- the replies that failed since the last success.
  pub happen_all-Counted :
      (hs : List Happening) (w v : Checked)
      → Counted w.checks
      → happen_all build_uri spawn signal_name is_success status_text hs w ≡ ok v
      → Counted v.checks
  unfolding happen_all
  happen_all-Counted [] w v counted e =
      subst (Ensures (λ (u : Checked). Counted u.checks)) e counted
  happen_all-Counted (h ∷ hs) w v counted e = elim (Outcome-cases (next h w)) [
    | inl panics ↦ cc (rw (panics, happen_all) at e)
    | inr (u, moved) ↦
        happen_all-Counted hs u v (happen-Counted h w u counted moved) (rw (moved, happen_all) at e)
  ]
