-- ===== src/Endpoints.antt =====
-- src/endpoints.rs: the two endpoints of the program's own, as functions of what the supervisor
-- answers. `send` to the supervisor may fail by itself.
pub mod Answers
mod Tests
use blahaj.Prelude.{
  ℕ, List, [], ◌∷◌, Bool, true, false, not, ◌++◌, if◌then◌else◌, ◌⊎◌, inl, inr, map,
}
use blahaj.Prelude.Text.{Str, codes}
use blahaj.Map
use blahaj.Supervisor.Lifecycle.{
  HealthState, healthy, unhealthy, unknown, Lifecycle, starting, running, terminating, terminated,
  failed,
}

-- What the values of an answer's object are.
pub data Value : Type 0 where
  boolean : Bool → Value
  string : Str → Value
  strings : List Str → Value

pub record Response : Type 0 where
  pub body : List (Str × Value)
  pub code : ℕ

abbrev pub ok_code : ℕ
ok_code = 200

abbrev pub internal_server_error : ℕ
internal_server_error = 500

-- `{:?}`.
unfoldable pub debug_health : HealthState → Str
debug_health healthy = codes "Healthy"
debug_health unhealthy = codes "Unhealthy"
debug_health unknown = codes "Unknown"

unfoldable pub debug_lifecycle : Lifecycle → Str
unfolding debug_health
debug_lifecycle starting = codes "Starting"
debug_lifecycle (running state) = codes "Running(" ++ (debug_health state ++ codes ")")
debug_lifecycle terminating = codes "Terminating"
debug_lifecycle terminated = codes "Terminated"
debug_lifecycle failed = codes "Failed"

-- `matches!(lifecycle, Lifecycle::Running(HealthState::Healthy))`.
unfoldable pub is_healthy : Lifecycle → Bool
is_healthy (running healthy) = true
is_healthy _ = false

-- The names of the programs that are not healthy.
unfoldable pub bad_services : List (Str × Lifecycle) → List Str
unfolding is_healthy
bad_services [] = []
bad_services ((name, lifecycle) ∷ rest) =
    let bad = bad_services rest in if not (is_healthy lifecycle) then name ∷ bad else bad

unfoldable pub health_of : List Str → Response
health_of [] = record { body = (codes "healthy", boolean true) ∷ []; code = ok_code }
health_of bad = record {
  body = (codes "healthy", boolean false) ∷ (codes "bad_services", strings bad) ∷ [];
  code = internal_server_error;
}

module _ {MailboxError : Type 0} (to_string : MailboxError → Str) where
  unfoldable pub status : MailboxError ⊎ (MailboxError ⊎ List (Str × Lifecycle)) → Response
  status (inr (inr statuses)) = record {
    body =
        Map.collect (map (λ (s : Str × Lifecycle). (s.0, string (debug_lifecycle s.1))) statuses);
    code = ok_code;
  }
  status (inl e) = record {
    body = (codes "error", string (to_string e)) ∷ [];
    code = internal_server_error;
  }
  status (inr (inl e)) = record {
    body = (codes "error", string (to_string e)) ∷ [];
    code = internal_server_error;
  }

  unfoldable pub health : MailboxError ⊎ (MailboxError ⊎ List (Str × Lifecycle)) → Response
  health (inr (inr statuses)) = health_of (bad_services statuses)
  health (inl e) = record {
    body = (codes "healthy", boolean false) ∷ (codes "error", string (to_string e)) ∷ [];
    code = internal_server_error;
  }
  health (inr (inl e)) = record {
    body = (codes "healthy", boolean false) ∷ (codes "error", string (to_string e)) ∷ [];
    code = internal_server_error;
  }
