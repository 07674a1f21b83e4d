-- ===== src/Supervisor/Caretaker/GivingUp/Tests.antt =====
-- A program of src/supervisor/caretaker.rs whose child fails twice, with two retries.
use blahaj.Prelude.{ℕ, [], ◌∷◌, ◌≡◌, refl, false, ok, Option, none, some, ◌++◌, Ensures, arith}
use blahaj.Prelude.Text.{Str, codes}
use blahaj.Config.{Program}
use blahaj.Proxy.{Scheme}
use blahaj.Supervisor.Futs.Abort.{exits, killed}
use blahaj.Supervisor.Caretaker.{Command}
use blahaj.Supervisor.Caretaker.Run.{Spawned, spawned, health_config}
use blahaj.Supervisor.Caretaker.System.{start, handle_daemon, wait_msg, run}
use blahaj.Supervisor.Caretaker.GivingUp.Steps.{Round}
use blahaj.Supervisor.Caretaker.GivingUp.{Verdict, events_of_all, rounds-Verdict}

abbrev sleeper : Program
sleeper = record {
  command = record { cmd = codes "sleep"; args = codes "5" ∷ [] };
  env = [];
  http = none;
  retry = record { window = 10; count = 2; delay = 2 };
  grace = 3;
}

abbrev build_uri : Scheme → Str → Str → Option Str
build_uri scheme authority path = some (authority ++ path)

abbrev spawn : Command → Spawned
spawn command = spawned 77

abbrev signal_name : ℕ → Option Str
signal_name n = none

abbrev first : Round
first = record { now = 21; cause = exits 1; unhealthy_rx = 2 }

abbrev second : Round
second = record { now = 27; cause = killed 9 false; unhealthy_rx = 3 }

unchecked : health_config build_uri none ≡ ok none
unfolding health_config
unchecked = refl

rounds-Verdict_example : Ensures (Verdict sleeper 2) (
    run build_uri spawn signal_name
      (wait_msg ∷ handle_daemon ∷ events_of_all (first ∷ second ∷ []))
      (start (codes "s") sleeper 1))
rounds-Verdict_example =
    rounds-Verdict build_uri spawn signal_name sleeper 77 refl none unchecked (codes "s") 1 20 first
      (second ∷ []) (omega arith)
      (
        record { is = omega arith; begins = omega arith; ends = omega arith },
        (record { is = (omega arith, omega arith); begins = omega arith; ends = omega arith }, tt),
      )
