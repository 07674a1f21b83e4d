-- ===== src/Supervisor/Health.antt =====
-- src/supervisor/health.rs: the actor that checks a program over HTTP. The replies to its requests
-- are arguments; what it sends is a list of effects. A `Duration` is a number of nanoseconds.
pub mod Limit
mod Tests
use blahaj.Prelude.{
  ℕ, ◌+◌, ◌*◌, ◌^◌, List, [], ◌∷◌, ◌++◌, Bool, true, false, Option, none, some, Outcome, ok, panic,
  expect, ◌>>=◌, ltb, leb, if◌then◌else◌,
}
use blahaj.Prelude.Text.{Str, codes}
use blahaj.Text.{show_usize}
use blahaj.Error.{HealthError, send, status, display_health_error}
use blahaj.Logger.{Custom, new_with_level, error}
use blahaj.Supervisor.Lifecycle.{HealthState, healthy, unhealthy}

pub record HealthConfig : Type 0 where
  pub uri : Str
  pub interval : ℕ
  pub grace_period : ℕ

-- `stop_tx` tells whether the sender is still there.
pub record HealthActor : Type 0 where
  pub name : Str
  pub config : Option HealthConfig
  pub stop_tx : Bool
  pub unhealthy_count : ℕ

pub data Effect : Type 0 where
  set_health_state : HealthState → Effect
  log : Custom → Effect
  notify_unhealthy : Effect
  run_interval : ℕ → Effect

unfoldable pub new : Str → Option HealthConfig → HealthActor
new name config = record { name = name; config = config; stop_tx = true; unhealthy_count = 0 }

unfoldable pub started : HealthActor → List Effect
started this = elim this.config [
  | some config ↦ run_interval config.interval ∷ []
  | none ↦ set_health_state healthy ∷ []
]

-- The reply to a request: its status code, or why it was not sent.
pub data Reply : Type 0 where
  replied : ℕ → Reply
  not_sent : Str → Reply

-- What a callback leaves: the actor, what it sent, and whether it stopped its context.
pub record Called : Type 0 where
  pub actor : HealthActor
  pub effects : List Effect
  pub stopped : Bool

-- `Duration::MAX` is 2 ^ 64 seconds less a nanosecond.
abbrev pub duration_end : ℕ
duration_end = 2 ^ 64 * 1_000_000_000

-- `interval * count.try_into().expect(..)`, with a `u32` on the right.
unfoldable pub times : ℕ → ℕ → Outcome ℕ
times interval count =
    if ltb count (2 ^ 32)
    then (if ltb (interval * count) duration_end then ok (interval * count) else panic)
    else panic

-- `is_success` and `status_text` are the crate `http`'s.
module _ (is_success : ℕ → Bool) (status_text : ℕ → Str) where
  unfoldable pub check : Reply → Option HealthError
  check (not_sent e) = some (send e)
  check (replied code) = if is_success code then none else some (status code)

  -- `heard`: whether the receiver of the unhealthy signal is still there.
  fail : Bool → HealthConfig → HealthActor → HealthError → Outcome Called
  fail heard config this e = do
    let count = this.unhealthy_count + 1
    let text =
        codes "Health check failed ("
        ++ (show_usize count ++ (codes "): " ++ display_health_error status_text e))
    let told = set_health_state unhealthy ∷ log (new_with_level error this.name text) ∷ []
    let counted = record this { unhealthy_count = count }
    elapsed ← times config.interval count
    if leb config.grace_period elapsed
        then (if this.stop_tx
            then (if heard
                then ok (record {
                  actor = record counted { stop_tx = false };
                  effects = told ++ notify_unhealthy ∷ [];
                  stopped = true;
                })
                else panic)
            else panic)
        else ok (record { actor = counted; effects = told; stopped = false })

  pass : HealthActor → Called
  pass this = record {
    actor = record this { unhealthy_count = 0 };
    effects = set_health_state healthy ∷ [];
    stopped = false;
  }

  -- The callback of a request.
  unfoldable pub on_reply : Bool → HealthConfig → HealthActor → Reply → Outcome Called
  unfolding fail pass times
  on_reply heard config this reply = elim (check reply) [
    | some e ↦ fail heard config this e
    | none ↦ ok (pass this)
  ]
