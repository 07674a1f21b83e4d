-- ===== src/Supervisor/Health/Limit.antt =====
-- When the actor of src/supervisor/health.rs reports its program as unhealthy.
use Prim.Native.Nat.{max}
use blahaj.Prelude.{
  ℕ, suc, ◌+◌, ◌*◌, ◌^◌, ◌≤◌, ◌<◌, List, [], ◌∷◌, ◌≡◌, refl, inl, inr, Bool, true, false, ◌&&◌,
  Option, none, some, Outcome, ok, panic, ltb, leb, if◌then◌else◌, length, Option-cases, arith,
}
use blahaj.Prelude.Text.{Str}
use blahaj.Supervisor.Lifecycle.{HealthState, healthy, unhealthy}
use blahaj.Supervisor.Health.{
  HealthConfig, HealthActor, Effect, set_health_state, notify_unhealthy, Reply, Called,
  duration_end, new, check, on_reply, times,
}

-- The state that the caretaker is told of last.
abbrev pub last_told : List Effect → Option HealthState → Option HealthState
last_told [] told = told
last_told (set_health_state state ∷ effects) told = last_told effects (some state)
last_told (_ ∷ effects) told = last_told effects told

-- The unhealthy signal is sent.
abbrev pub notifies : List Effect → Bool
notifies [] = false
notifies (notify_unhealthy ∷ effects) = true
notifies (_ ∷ effects) = notifies effects

module _ (is_success : ℕ → Bool) (status_text : ℕ → Str) where
  -- The callbacks of some replies in turn, until the context stops; the receiver stays there.
  unfoldable pub on_replies : HealthConfig → HealthActor → List Reply → Outcome Bool
  on_replies config this [] = ok false
  on_replies config this (reply ∷ replies) =
      elim (on_reply is_success status_text true config this reply) [
        | panic ↦ panic
        | ok called ↦ elim called.stopped [
          | true ↦ ok true
          | false ↦ on_replies config called.actor replies
        ]
      ]

  -- How many replies fail in a row, at the front.
  abbrev pub failing : List Reply → ℕ
  failing [] = 0
  failing (reply ∷ replies) = elim (check is_success status_text reply) [
    | some e ↦ suc (failing replies)
    | none ↦ 0
  ]

  -- How many replies fail in a row, at most.
  abbrev pub longest_failing : List Reply → ℕ
  longest_failing [] = 0
  longest_failing (reply ∷ replies) = max (failing (reply ∷ replies)) (longest_failing replies)

  -- The highest count of failures that is met, from a count.
  peak : ℕ → List Reply → ℕ
  peak count [] = 0
  peak count (reply ∷ replies) = elim (check is_success status_text reply) [
    | some e ↦ max (count + 1) (peak (count + 1) replies)
    | none ↦ peak 0 replies
  ]

  failing-le-longest : (replies : List Reply) → failing replies ≤ longest_failing replies
  failing-le-longest [] = omega arith
  failing-le-longest (reply ∷ replies) = omega arith

  longest-le-length : (replies : List Reply) → longest_failing replies ≤ length replies
  longest-le-length replies = (bounds replies).1
    where
      bounds :
          (replies : List Reply)
          → (failing replies ≤ length replies) × (longest_failing replies ≤ length replies)
      bounds [] = (omega arith, omega arith)
      bounds (reply ∷ replies) = ground (arith, bounds replies)

  peak-eq :
      (count : ℕ) (replies : List Reply)
      → peak count replies ≡ (
          if ltb 0 (failing replies)
          then max (count + failing replies) (longest_failing replies)
          else longest_failing replies)
  unfolding peak
  peak-eq count [] = refl
  peak-eq count (reply ∷ replies) =
      ground (arith, peak-eq (count + 1) replies, peak-eq 0 replies, failing-le-longest replies)

  peak_zero : (replies : List Reply) → peak 0 replies ≡ longest_failing replies
  peak_zero replies = ground (arith, peak-eq 0 replies, failing-le-longest replies)

  module _ (config : HealthConfig) where
    -- Whether that many failures in a row are too many.
    abbrev reaches : ℕ → Bool
    reaches count = leb config.grace_period (config.interval * count)

    -- `config.interval * n` fits a `Duration`, and `n` a `u32`.
    abbrev pub Fits : ℕ → Type 0
    Fits n = (n < 2 ^ 32) × (config.interval * n < duration_end)

    times_of_Fits : (n m : ℕ) → n ≤ m → Fits m → times config.interval n ≡ ok (config.interval * n)
    unfolding times
    times_of_Fits n m le fits = grind arith

    mul_mono : (n m : ℕ) → n ≤ m → config.interval * n ≤ config.interval * m
    mul_mono n m le = grind arith

    -- The actor stops when a count that it meets is too high.
    abbrev stops : ℕ → Bool
    stops highest = ltb 0 highest && reaches highest

    stops-max : (n m : ℕ) → 0 < n → stops (max n m) ≡ (if reaches n then true else stops m)
    stops-max n m pos = ground (arith, mul_mono n (max n m), mul_mono m n, mul_mono (max n m) n)

    on_replies-peak :
        (replies : List Reply) (this : HealthActor)
        → this.stop_tx ≡ true
        → Fits (this.unhealthy_count + length replies)
        → on_replies config this replies ≡ ok (stops (peak this.unhealthy_count replies))
    unfolding on_replies on_reply peak
    on_replies-peak [] this tx fits = ground arith
    on_replies-peak (reply ∷ replies) this tx fits =
        elim (Option-cases (check is_success status_text reply)) [
          | inl passed ↦ ground (
            arith,
            passed,
            on_replies-peak replies (record this { unhealthy_count = 0 }) tx,
            mul_mono (0 + length replies) (this.unhealthy_count + suc (length replies)),
          )
          | inr (e, failed) ↦
              let count = this.unhealthy_count + 1 in
              let counted = record this { unhealthy_count = count } in
              ground (
                arith,
                failed,
                on_replies-peak replies counted tx,
                mul_mono count (this.unhealthy_count + suc (length replies)),
                mul_mono (count + length replies) (this.unhealthy_count + suc (length replies)),
                stops-max count (peak count replies),
              )
        ]

  -- A new actor whose replies are few enough for `u32` and `Duration`, and whose receiver stays
  -- there, does not panic. It reports its program as unhealthy (and stops) in the course of the
  -- replies exactly when one fails and the longest row of failures, at one interval each, is at
  -- least the grace period. A success in between starts the row anew.
  pub on_replies-new :
      (name : Str) (config : HealthConfig) (replies : List Reply)
      → Fits config (length replies)
      → on_replies config (new name (some config)) replies
        ≡ ok (
            ltb 0 (longest_failing replies)
            && leb config.grace_period (config.interval * longest_failing replies))
  unfolding new
  on_replies-new name config replies fits =
      ground
        (arith, on_replies-peak config replies (new name (some config)) refl, peak_zero replies)

  -- Each callback that does not panic tells the caretaker last whether the reply was a success, counts
  -- a failure and starts the count anew after a success, and stops its context exactly when it sends
  -- the unhealthy signal, which uses its sender up.
  on_reply_tells :
      (heard : Bool) (config : HealthConfig) (this : HealthActor) (reply : Reply) (called : Called)
      → on_reply is_success status_text heard config this reply ≡ ok called
      → (last_told called.effects none
          ≡ some
              (elim (check is_success status_text reply) [ some _ ↦ unhealthy | none ↦ healthy ]))
        × (called.actor.unhealthy_count ≡ elim (check is_success status_text reply) [
          | some _ ↦ this.unhealthy_count + 1
          | none ↦ 0
        ])
        × (called.stopped ≡ notifies called.effects)
        × (called.actor.stop_tx ≡ (if called.stopped then false else this.stop_tx))
  unfolding on_reply
  on_reply_tells heard config this reply called e = ground arith
