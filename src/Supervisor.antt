-- ===== src/Supervisor.antt =====
-- src/supervisor: the supervision of the programs.
pub mod Lifecycle
pub mod Retry
pub mod Futs
pub mod Health
pub mod Caretaker
pub mod Checked
pub mod Fleet
