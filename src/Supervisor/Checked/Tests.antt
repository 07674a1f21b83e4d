-- ===== src/Supervisor/Checked/Tests.antt =====
-- A program with a health check (src/supervisor/caretaker.rs, src/supervisor/health.rs) that stops
-- answering.
use blahaj.Prelude.{
  ℕ, List, [], ◌∷◌, ◌++◌, ◌≡◌, refl, Bool, true, false, Option, none, some, Outcome, ok, panic, ltb,
  leb, ◌&&◌, arith,
}
use blahaj.Prelude.Text.{Str, codes}
use blahaj.Text.{trim_start, show_u16}
use blahaj.Config.{Program}
use blahaj.Proxy.{Scheme, authority_text}
use blahaj.Supervisor.Retry.{mark}
use blahaj.Supervisor.Retry
use blahaj.Supervisor.Health
use blahaj.Supervisor.Health.{HealthConfig, not_sent, replied, Reply, on_reply, times, duration_end}
use blahaj.Supervisor.Futs.{
  pending, poll_repeated, poll_abort, new_repeated, new_abort, RepeatedActFut,
}
use blahaj.Supervisor.Caretaker.{
  Command, new, started, handle_wait, handle_set_health_state, broadcast_stopped, build_command,
}
use blahaj.Supervisor.Caretaker.Run.{
  Receiver, Spawned, spawned, after_watch, conclude, finish_run, one_round, daemon_future,
  finish_daemon, begin_run, health_config, uri_for_check,
}
use blahaj.Supervisor.Caretaker.System
use blahaj.Supervisor.Caretaker.System.{
  Phase, System, Event, active, handle_daemon, poll_daemon, handle_run, poll_watch, wait_msg,
  has_receiver,
}
use blahaj.Supervisor.Checked.{Check, Checked, start, begins, Happening, own, check_at, happen_all}
use blahaj.Supervisor.Checked.Counted.{failing_row}
use blahaj.Supervisor.Checked.Fit.{IsFailing}
use blahaj.Supervisor.Checked.Excused.{unhealthy_excused}
use blahaj.Supervisor.Checked.Failing.{replies_to_newest}

-- Two failures of the check make up its grace period.
abbrev server : Program
server = record {
  command = record { cmd = codes "serve"; args = [] };
  env = [];
  http = some (record {
    port = 80;
    path = codes "/web";
    https = false;
    strip_path = true;
    health_check = some (record { path = codes "/"; interval = 10; grace = 20 });
  });
  retry = record { window = 10; count = 3; delay = 2 };
  grace = 3;
}

abbrev build_uri : Scheme → Str → Str → Option Str
build_uri scheme authority path = some (authority ++ path)

abbrev spawn : Command → Spawned
spawn command = spawned 77

abbrev signal_name : ℕ → Option Str
signal_name n = none

abbrev is_success : ℕ → Bool
is_success code = leb 200 code && ltb code 300

abbrev status_text : ℕ → Str
status_text code = codes "status"

-- The program runs, with its health actor.
abbrev up : List Happening
up =
    own wait_msg
    ∷ own handle_daemon
    ∷ own (poll_daemon 20 false)
    ∷ own (handle_run 2)
    ∷ check_at 0 begins
    ∷ []

abbrev bad : List Reply
bad = not_sent (codes "refused") ∷ Health.replied 503 ∷ []

result : List Happening → Outcome Checked
unfolding happen_all start System.start started new System.step has_receiver handle_wait
    daemon_future new_repeated poll_repeated mark Retry.new begin_run build_command new_abort
    poll_abort after_watch conclude finish_run one_round finish_daemon broadcast_stopped
    health_config uri_for_check trim_start authority_text show_u16 on_reply times
    handle_set_health_state Health.new Health.started Health.check
result hs =
    happen_all build_uri spawn signal_name is_success status_text hs (start (codes "s") server 1)

reached : List Happening → Checked
unfolding result
reached hs = elim (result hs) [ ok w ↦ w | panic ↦ start (codes "s") server 1 ]

abbrev sick : List Happening
sick =
    up
    ++ replies_to_newest (not_sent (codes "refused") ∷ Health.replied 200 ∷ bad)
    ++ own (poll_watch false pending) ∷ []

unhealthy_excused_example :
    (c : Check) × (rest : List Check) × (config : HealthConfig) × ((reached sick).checks ≡ c ∷ rest)
    × (health_config build_uri server.http ≡ ok (some config))
    × IsFailing config (failing_row is_success c.replies)
unfolding reached
unhealthy_excused_example =
    unhealthy_excused build_uri spawn signal_name is_success status_text server
      (λ config e. ground (arith, e)) (codes "s") 1 sick (reached sick) refl refl

future_in : System → RepeatedActFut Phase Receiver
unfolding new_repeated Retry.new
future_in s = elim s.daemon [ active future ↦ future | _ ↦ new_repeated 0 (Retry.new [] 0 0) 0 ]

abbrev next_check : Check
next_check = record {
  actor =
      Health.new (codes "s")
        (some (record { uri = codes "127.0.0.1:80/"; interval = 10; grace_period = 20 }));
  begun = true;
  live = true;
  told_to_stop = false;
  replies = [];
}
