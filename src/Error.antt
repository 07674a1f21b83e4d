-- ===== src/Error.antt =====
-- src/error.rs. An error of another library is its text; the numbers are exit codes, signals'
-- names and status codes.
use blahaj.Prelude.{ℕ, ◌++◌}
use blahaj.Prelude.Text.{Str, codes}
use blahaj.Text.{show_usize}

pub data SupervisorError : Type 0 where
  command : SupervisorError
  spawn : Str → SupervisorError
  already_died : SupervisorError
  non_zero_exit : ℕ → SupervisorError
  exit_by_signal : Str → SupervisorError

pub data HttpError : Type 0 where
  send : Str → HttpError
  receive : Str → HttpError

pub data HealthError : Type 0 where
  send : Str → HealthError
  status : ℕ → HealthError

-- `to_string()` of an error of a health check; `status_text` is that of the crate `http`.
unfoldable pub display_health_error : (ℕ → Str) → HealthError → Str
display_health_error status_text (HealthError.send e) =
    codes "Unable to send request to upstream - " ++ e
display_health_error status_text (status c) =
    codes "Non-success response status code - " ++ status_text c

-- `to_string()` of an error of the supervisor.
unfoldable pub display_supervisor_error : SupervisorError → Str
display_supervisor_error command = codes "Invalid command Line"
display_supervisor_error (spawn e) = codes "Unable to spawn child - " ++ e
display_supervisor_error already_died = codes "Child exited too quickly"
display_supervisor_error (non_zero_exit c) =
    codes "Child exited with non-zero exit code - " ++ show_usize c
display_supervisor_error (exit_by_signal name) = codes "Child terminated by signal - " ++ name
