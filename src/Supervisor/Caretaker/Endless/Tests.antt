-- ===== src/Supervisor/Caretaker/Endless/Tests.antt =====
-- A program of src/supervisor/caretaker.rs that cannot be spawned and is told to stop.
use blahaj.Prelude.{
  ℕ, List, [], ◌∷◌, ◌≢◌, refl, true, false, Option, none, some, Outcome, ok, panic, ◌++◌, arith,
}
use blahaj.Prelude.Text.{Str, codes}
use blahaj.Config.{Program}
use blahaj.Proxy.{Scheme}
use blahaj.Supervisor.Retry
use blahaj.Supervisor.Retry.{mark}
use blahaj.Supervisor.Futs.{poll_repeated, new_repeated}
use blahaj.Supervisor.Caretaker.{
  Command, new, started, handle_terminate, handle_wait, broadcast_stopped,
}
use blahaj.Supervisor.Caretaker.Run.{
  Spawned, not_spawned, after_watch, conclude, finish_run, one_round, daemon_future, finish_daemon,
  begin_run,
}
use blahaj.Supervisor.Caretaker.System.{
  System, start, Event, handle_daemon, poll_daemon, handle_run, look_at_end, terminate_msg,
  wait_msg, has_receiver, over, step, run,
}
use blahaj.Supervisor.Caretaker.Endless.{unspawned_never_ends}

abbrev missing : Program
missing = record {
  command = record { cmd = codes "slep"; args = codes "5" ∷ [] };
  env = [];
  http = none;
  retry = record { window = 10; count = 9; delay = 2 };
  grace = 3;
}

abbrev build_uri : Scheme → Str → Str → Option Str
build_uri scheme authority path = some (authority ++ path)

abbrev spawn : Command → Spawned
spawn command = not_spawned (codes "No such file or directory")

abbrev signal_name : ℕ → Option Str
signal_name n = none

-- The stop signal comes during the first run, and a second run begins.
abbrev events : List Event
events =
    wait_msg
    ∷ handle_daemon
    ∷ poll_daemon 20 false
    ∷ terminate_msg
    ∷ handle_run 2
    ∷ look_at_end
    ∷ poll_daemon 21 false
    ∷ poll_daemon 23 true
    ∷ poll_daemon 24 false
    ∷ handle_run 3
    ∷ []

result : Outcome System
unfolding run step start started new has_receiver handle_terminate handle_wait daemon_future
    new_repeated poll_repeated mark Retry.new begin_run after_watch conclude finish_run one_round
    finish_daemon broadcast_stopped
result = run build_uri spawn signal_name events (start (codes "s") missing 1)

last : System
unfolding result
last = elim result [ ok s ↦ s | panic ↦ start (codes "s") missing 1 ]

unspawned_never_ends_example : last.daemon ≢ over
unfolding result last step
unspawned_never_ends_example =
    unspawned_never_ends build_uri spawn signal_name missing (codes "No such file or directory")
      refl (codes "s") 1 events last (omega arith) refl
