-- ===== src/Config.antt =====
-- src/config.rs: the shape of the configuration and its defaults. A `Duration` is a number of
-- nanoseconds, a socket address the text of its host with a port.
pub mod Values
pub mod Document
pub mod Unknown
pub mod Programs
pub mod Samples
mod Tests
use blahaj.Prelude.{ℕ, ◌-◌, ◌*◌, ◌^◌, Bool, List, Option}
use blahaj.Prelude.Text.{Str, codes}

abbrev pub second : ℕ
second = 1_000_000_000

pub record SocketAddr : Type 0 where
  pub ip : Str
  pub port : ℕ

pub record HealthCheck : Type 0 where
  pub path : Str
  pub interval : ℕ
  pub grace : ℕ

pub record HttpRelay : Type 0 where
  pub port : ℕ
  pub path : Str
  pub https : Bool
  pub strip_path : Bool
  pub health_check : Option HealthCheck

pub record Retry : Type 0 where
  pub window : ℕ
  pub count : ℕ
  pub delay : ℕ

-- `None` stands for a variable that is removed from the environment.
pub record Env : Type 0 where
  pub value : Option Str

pub record CommandLine : Type 0 where
  pub cmd : Str
  pub args : List Str

pub record Program : Type 0 where
  pub command : CommandLine
  pub env : List (Str × Env)
  pub http : Option HttpRelay
  pub retry : Retry
  pub grace : ℕ

pub record Config : Type 0 where
  pub bind : SocketAddr
  pub api_scope : Str
  pub programs : List (Str × Program)

abbrev pub default_scope : Str
default_scope = codes "/blahaj"

abbrev pub default_stop_grace : ℕ
default_stop_grace = 10 * second

abbrev pub default_retry_window : ℕ
default_retry_window = 10 * second

-- `usize::MAX`.
abbrev pub default_retry_count : ℕ
default_retry_count = 2 ^ 64 - 1

abbrev pub default_retry_delay : ℕ
default_retry_delay = 1 * second

abbrev pub default_health_interval : ℕ
default_health_interval = 5 * second

abbrev pub default_health_grace : ℕ
default_health_grace = 30 * second

-- `Retry::default()`.
unfoldable pub default : Retry
default = record {
  window = default_retry_window;
  count = default_retry_count;
  delay = default_retry_delay;
}
