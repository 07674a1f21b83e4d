-- ===== src/Supervisor/Lifecycle.antt =====
-- The states of a program (src/supervisor/caretaker.rs).
pub data HealthState : Type 0 where
  healthy unhealthy unknown : HealthState

pub data Lifecycle : Type 0 where
  starting : Lifecycle
  running : HealthState → Lifecycle
  terminating terminated failed : Lifecycle
