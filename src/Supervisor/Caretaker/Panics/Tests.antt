-- ===== src/Supervisor/Caretaker/Panics/Tests.antt =====
-- A caretaker of src/supervisor/caretaker.rs that handles a `Wait` in time, and one that does not.
use blahaj.Prelude.{ℕ, List, [], ◌∷◌, ◌≢◌, refl, false, Option, none, some, ◌++◌, panic, arith}
use blahaj.Prelude.Text.{Str, codes}
use blahaj.Config.{Program}
use blahaj.Proxy.{Scheme}
use blahaj.Supervisor.Futs.{ready, status}
use blahaj.Supervisor.Futs.Abort.{exits}
use blahaj.Supervisor.Caretaker.Run.{spawned, health_config}
use blahaj.Supervisor.Caretaker.System.{
  start, Event, handle_daemon, poll_daemon, handle_run, poll_watch, terminate_msg, wait_msg, run,
}
use blahaj.Supervisor.Caretaker.Panics.{awaited_no_panic}

abbrev sleeper : Program
sleeper = record {
  command = record { cmd = codes "sleep"; args = codes "5" ∷ [] };
  env = [];
  http = none;
  retry = record { window = 10; count = 1; delay = 2 };
  grace = 3;
}

abbrev build_uri : Scheme → Str → Str → Option Str
build_uri scheme authority path = some (authority ++ path)

abbrev signal_name : ℕ → Option Str
signal_name n = none

-- The child ends with code 1, which uses the one retry up, and a `Terminate` comes too late.
abbrev failing : List Event
failing =
    handle_daemon
    ∷ poll_daemon 20 false
    ∷ handle_run 2
    ∷ poll_watch false (ready (status 256))
    ∷ poll_daemon 30 false
    ∷ terminate_msg
    ∷ []

awaited_no_panic_example :
    run build_uri
      (λ command. spawned 77)
      signal_name
      (wait_msg ∷ failing)
      (start (codes "s") sleeper 1)
    ≢ panic
unfolding run health_config
awaited_no_panic_example =
    awaited_no_panic build_uri (λ command. spawned 77) signal_name sleeper (none, refl) (codes "s")
      1 [] failing (start (codes "s") sleeper 1) refl
      (tt, (omega arith, (tt, ((exits 1, omega arith, refl), (omega arith, (tt, tt))))))

abbrev missing : Str
missing = codes "No such file or directory"
