-- ===== src/Supervisor/Checked/Failing.antt =====
-- Health checks (src/supervisor/health.rs) that fail one after the other.
use blahaj.Prelude.{
  ℕ, zero, ◌+◌, ◌*◌, ◌^◌, ◌≤◌, ◌<◌, List, [], ◌∷◌, ◌≡◌, ◌≢◌, ◌⊎◌, inl, inr, Bool, true, Option,
  none, some, Outcome, Ensures, Ensures-bind, Bool-cases, ◌∙◌, Option-cases, All, map, length, leb,
  if◌then◌else◌, arith,
}
use blahaj.Prelude.Text.{Str}
use blahaj.Proxy.{Scheme}
use blahaj.Supervisor.Health.{HealthConfig, Reply, check, on_reply, duration_end, times}
use blahaj.Supervisor.Caretaker.{Command}
use blahaj.Supervisor.Caretaker.Run.{Spawned}
use blahaj.Supervisor.Caretaker.System.{daemon_phase, is_watching, System}
use blahaj.Supervisor.Checked.{
  Check, Checked, is_ready, replied, Happening, check_at, on_check, on_place, happen, happen_all,
}

-- What is at work: a child is watched and its health actor checks.
pub record IsAtWork (config : HealthConfig) (count : ℕ) (w : Checked) : Type 0 where
  pub watched : is_watching (daemon_phase w.system.daemon) ≡ true
  pub newest : Check
  pub others : List Check
  pub listed : w.checks ≡ newest ∷ others
  pub live : newest.live ≡ true
  pub begun : newest.begun ≡ true
  pub unsent : newest.actor.stop_tx ≡ true
  pub same : newest.actor.config ≡ some config
  pub counted : newest.actor.unhealthy_count ≡ count

-- The signal is ready, and nothing else changed for the caretaker.
abbrev pub Readied : System → Checked → Type 0
Readied s v = (v.system ≡ s) × (is_ready v.checks ≡ true)

-- The replies to the newest health actor.
abbrev pub replies_to_newest : List Reply → List Happening
replies_to_newest = map (λ reply. check_at zero (replied reply))

-- The reply is none, or its status is no success.
abbrev pub Fails : (is_success : ℕ → Bool) (status_text : ℕ → Str) → Reply → Type 0
Fails is_success status_text reply = check is_success status_text reply ≢ none

module _ (build_uri : Scheme → Str → Str → Option Str) (spawn : Command → Spawned)
    (signal_name : ℕ → Option Str) (is_success : ℕ → Bool) (status_text : ℕ → Str) where
  abbrev next : Happening → Checked → Outcome Checked
  next = happen build_uri spawn signal_name is_success status_text

  abbrev after : List Happening → Checked → Outcome Checked
  after = happen_all build_uri spawn signal_name is_success status_text

  module _ (config : HealthConfig) where
    -- A reply that fails is counted, or the signal is sent.
    abbrev Told : ℕ → System → Checked → Type 0
    Told count s v =
        (v.system ≡ s)
        × (if leb config.grace_period (config.interval * count)
            then is_ready v.checks ≡ true
            else IsAtWork config count v)

    reply-cases :
        (count : ℕ) (reply : Reply) (w : Checked)
        → IsAtWork config count w
        → Fails is_success status_text reply
        → count + 1 < 2 ^ 32
        → config.interval * (count + 1) < duration_end
        → Ensures (Told (count + 1) w.system) (next (check_at zero (replied reply)) w)
    unfolding happen on_place on_check on_reply times
    reply-cases count reply w work fails small fits =
        elim (Option-cases (check is_success status_text reply)) [
          | inl passes ↦ absurd (fails passes)
          | inr (e, refused) ↦ ground (arith, work, refused)
        ]

    -- A signal that is ready stays so, whatever is replied.
    ready-stays :
        (reply : Reply) (w : Checked)
        → is_ready w.checks ≡ true
        → Ensures (Readied w.system) (next (check_at zero (replied reply)) w)
    unfolding happen on_place on_check on_reply
    ready-stays reply w ready = ground arith

    readies :
        (replies : List Reply) (s : System) (w : Checked)
        → Readied s w
        → Ensures (Readied s) (after (replies_to_newest replies) w)
    unfolding happen_all
    readies [] s w ready = ready
    readies (reply ∷ replies) s w (same, ready) =
        Ensures-bind (Readied w.system) (Readied s) (next (check_at zero (replied reply)) w)
          (after (replies_to_newest replies)) (ready-stays reply w ready)
          (λ v (still, r). readies replies s v (still ∙ same, r))

    mul_mono : (n m : ℕ) → n ≤ m → config.interval * n ≤ config.interval * m
    mul_mono n m le = grind arith

    -- Enough replies that fail, one after the other, make the signal ready.
    pub failing_replies :
        (replies : List Reply) (count : ℕ) (w : Checked)
        → IsAtWork config count w
        → All (Fails is_success status_text) replies
        → count + length replies < 2 ^ 32
        → config.interval * (count + length replies) < duration_end
        → config.grace_period ≤ config.interval * (count + length replies)
        → (0 < length replies) ⊎ (config.interval * count < config.grace_period)
        → Ensures (Readied w.system) (after (replies_to_newest replies) w)
    unfolding happen_all
    failing_replies [] count w work fails small fits long some_left =
        ground (arith, long, some_left)
    failing_replies (reply ∷ replies) count w work (f, fails) small fits long some_left =
        let on : count + 1 + length replies ≡ count + length (reply ∷ replies) = omega arith in
        let le = mul_mono (count + 1) (count + length (reply ∷ replies)) (omega arith) in
        elim (Bool-cases (leb config.grace_period (config.interval * (count + 1)))) [
          | inl enough ↦
              Ensures-bind (Told (count + 1) w.system) (Readied w.system)
                (next (check_at zero (replied reply)) w) (after (replies_to_newest replies))
                (reply-cases count reply w work f (omega arith) (omega arith))
                (λ v (same, r). readies replies w.system v (same, rw (enough) at r))
          | inr few ↦
              Ensures-bind (Told (count + 1) w.system) (Readied w.system)
                (next (check_at zero (replied reply)) w) (after (replies_to_newest replies))
                (reply-cases count reply w work f (omega arith) (omega arith))
                (λ v (same, at_work). rw⁻¹ (same) (
                  failing_replies replies (count + 1) v (rw (few) at at_work) fails (rw (on) small)
                    (rw (on) fits) (rw (on) long) (inr (ground (arith, few)))))
        ]
