-- ===== src/Supervisor/Caretaker/Children/Tests.antt =====
-- The children of two caretakers (src/supervisor/caretaker.rs): one whose child exits and is run
-- again, and one whose health check has no legal Uri.
use blahaj.Prelude.{
  ℕ, ◌+◌, ◌≤◌, List, [], ◌∷◌, ◌≡◌, refl, false, true, Option, none, some, ok, panic,
}
use blahaj.Prelude.Text.{Str, codes}
use blahaj.Config.{Program}
use blahaj.Proxy.{Scheme}
use blahaj.Supervisor.Retry
use blahaj.Supervisor.Retry.{mark}
use blahaj.Supervisor.Futs.{
  ready, status, new_repeated, new_abort, poll_repeated, poll_abort, exit_error,
}
use blahaj.Supervisor.Caretaker.{Command, new, started, build_command}
use blahaj.Supervisor.Caretaker.Run.{
  Spawned, spawned, after_watch, conclude, finish_run, one_round, daemon_future, finish_daemon,
  begin_run,
}
use blahaj.Supervisor.Caretaker.System.{
  over, System, start, Event, handle_daemon, poll_daemon, handle_run, poll_watch, has_receiver,
  step, run,
}
use blahaj.Supervisor.Caretaker.Children.{children, spawns, ends, total, one_child}

abbrev sleeper : Program
sleeper = record {
  command = record { cmd = codes "sleep"; args = codes "5" ∷ [] };
  env = [];
  http = none;
  retry = record { window = 10; count = 9; delay = 2 };
  grace = 3;
}

-- A space in the path of the check.
abbrev spaced : Program
spaced = record sleeper {
  http = some (record {
    port = 80;
    path = codes "/web";
    https = false;
    strip_path = true;
    health_check = some (record { path = codes "/a b"; interval = 10; grace = 20 });
  });
}

abbrev spawn : Command → Spawned
spawn command = spawned 77

abbrev signal_name : ℕ → Option Str
signal_name n = none

abbrev build_nothing : Scheme → Str → Str → Option Str
build_nothing scheme authority path = none

-- The child exits with code 1, and is spawned once more.
abbrev twice : List Event
twice =
    handle_daemon
    ∷ poll_daemon 20 false
    ∷ handle_run 2
    ∷ poll_watch false (ready (status 256))
    ∷ poll_daemon 30 false
    ∷ poll_daemon 32 true
    ∷ poll_daemon 32 false
    ∷ handle_run 3
    ∷ []

reached : List Event → System
unfolding run step start started new has_receiver daemon_future new_repeated poll_repeated mark
    Retry.new begin_run build_command new_abort poll_abort exit_error after_watch conclude
    finish_run one_round finish_daemon
reached events = elim (run build_nothing spawn signal_name events (start (codes "s") sleeper 1)) [
  | ok s ↦ s
  | panic ↦ start (codes "s") sleeper 1
]

one_child_example :
    (total build_nothing spawn signal_name
        (spawns build_nothing spawn signal_name)
        twice
        (start (codes "s") sleeper 1)
      ≡ total build_nothing spawn signal_name
          (ends build_nothing spawn signal_name)
          twice
          (start (codes "s") sleeper 1)
        + children (reached twice))
    × (children (reached twice) ≤ 1)
    × ((reached twice).daemon ≡ over → children (reached twice) ≡ 0)
unfolding reached
one_child_example =
    one_child build_nothing spawn signal_name (codes "s") sleeper 1 twice (reached twice) refl

abbrev first_run : List Event
first_run = handle_daemon ∷ poll_daemon 20 false ∷ handle_run 2 ∷ []
