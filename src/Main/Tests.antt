-- ===== src/Main/Tests.antt =====
-- `main` (src/main.rs) with a program that ends in order, and with one that cannot be spawned.
use mathlib.Core.List.{Memᴰ, Permᴰ}
use blahaj.Prelude.{
  ap, ◌++◌, map, ◌∷◌, ◌≤◌, length, false, Option, some, List, ◌⊎◌, inl, inr, ◌↔◌, ℕ, [], ◌≡◌, refl,
  true, none, ok, All, arith,
}
use blahaj.Prelude.Text.{Str, codes}
use blahaj.Text.{trim, trim_start, show_u16}
use blahaj.Config.{Config, Program, HttpRelay}
use blahaj.Proxy.{key_of, authority_text}
use blahaj.Proxy.Ancestors.{IsAncestor}
use blahaj.Proxy.Handler.{HttpRequest, ClientResponse, copy_headers, forward}
use blahaj.Proxy.Handler.Samples.{builders, clients, plain}
use blahaj.Main.Serving.{program_served}
use blahaj.Main.Order.{forward-order}
use blahaj.Supervisor.Fleet.{join_answer}
use blahaj.Supervisor.Fleet.World.{
  Happening, at, join, unsent, terminate_all, happen_all, wait_reply, deliver, own,
}
use blahaj.Supervisor.Fleet.Shutdown.{IsOver}
use blahaj.Supervisor.Caretaker.System.{
  Event, handle_daemon, poll_daemon, handle_run, poll_watch, look_at_end, child_gone,
}
use blahaj.Supervisor.Caretaker.Terminating.{
  handled, looked_at, stopped, ends_round, slept_well, asks, spawns, signalled, gone, ends_last,
}
use blahaj.Supervisor.Caretaker.Terminating.Fairness.{Passes, arrived, also, advances}
use blahaj.Supervisor.Fleet.Progress.{Doings, happenings}
use blahaj.Supervisor.Fleet.Samples.{
  polling, build_uri, spawn, signal_name, stop_rx, one_program, two_programs, ended, broken,
  ended-Reach, sleeper, two_sleepers, halted, halted-Reach, broken-Reach, awaited, awaited-Reach,
}
use blahaj.Supervisor.Futs.{pending, ready, status}
use blahaj.Supervisor.Futs.Abort.{exits}
use blahaj.Supervisor.Caretaker.Panics.{IsRegular}
use blahaj.Main.{relays_of, proxy_config, answer_of, stop_task}
use blahaj.Main.Shutdown.{fair_stops, stops_exactly, stops_last, stops_early}

stops_last_example : All (λ a. IsOver a.1) ended.supervisor.actors
unfolding ended join_answer stop_task
stops_last_example =
    stops_last build_uri spawn signal_name stop_rx one_program 0 polling ended ended-Reach
      (refl, tt) refl

-- `Join` is handled, and the second program goes on.
abbrev meanwhile : List Happening
meanwhile = join ∷ at 1 deliver ∷ at 1 (own (poll_watch false pending)) ∷ []

stops_early_example :
    stop_task (
      answer_of {Error = ℕ} (
        join_answer polling
          (wait_reply 0)
          (happen_all build_uri spawn signal_name meanwhile broken).supervisor))
    ≡ ok true
unfolding broken happen_all
stops_early_example =
    stops_early build_uri spawn signal_name stop_rx two_programs 0 polling broken (codes "a")
      (record { system = none; mailbox = []; waiting = unsent }) meanwhile broken-Reach
      (Memᴰ.head refl) (refl, λ e. ground (arith, e)) refl

-- The ten events by which the work goes on.
abbrev ten_events : List Event
ten_events =
    handle_daemon
    ∷ look_at_end
    ∷ child_gone
    ∷ poll_daemon 30 false
    ∷ poll_daemon 31 true
    ∷ poll_daemon 31 false
    ∷ handle_run 3
    ∷ poll_watch false pending
    ∷ child_gone
    ∷ poll_daemon 33 false
    ∷ []

ten_events-Passes : Passes 0 ten_events
ten_events-Passes = advances handled (
    advances looked_at (
      advances stopped (
        advances ends_round (
          advances slept_well (
            advances asks (
              advances spawns
                (advances signalled (advances gone (advances ends_last arrived)))))))))

ten_events-IsRegular : All (IsRegular sleeper) ten_events
ten_events-IsRegular = (
  tt,
  (tt, (tt, (omega arith, (omega arith, (omega arith, (tt, (tt, (tt, (omega arith, tt))))))))),
)

abbrev going_on : ℕ → Doings
going_on place = map (λ e. (place, own e)) ten_events

-- At the second place one more poll comes in between.
abbrev fair : Doings
fair =
    (1, deliver)
      ∷ (0, deliver)
      ∷ (1, deliver)
      ∷ (1, own handle_daemon)
      ∷ (1, own (poll_daemon 25 false))
      ∷ going_on 0
    ++ going_on 1

fair_stops_example :
    stop_task (
      answer_of {Error = ℕ} (
        join_answer polling
          (wait_reply 0)
          (happen_all build_uri spawn signal_name (happenings fair) halted).supervisor))
    ≡ ok true
unfolding halted
fair_stops_example =
    fair_stops build_uri spawn signal_name stop_rx two_sleepers 0 polling halted fair halted-Reach
      refl refl (((none, refl), (77, refl)), (((none, refl), (77, refl)), tt))
      (
        (ten_events-Passes, ten_events-IsRegular),
        ((also (also ten_events-Passes), (tt, (omega arith, ten_events-IsRegular))), tt),
      )

-- The first program is begun, and its child ends with code 1 before the `Terminate` is handled.
abbrev later : List Happening
later =
    at 0 (own handle_daemon)
    ∷ at 0 (own (poll_daemon 20 false))
    ∷ at 0 (own (handle_run 2))
    ∷ terminate_all
    ∷ at 0 (own (poll_watch false (ready (status 256))))
    ∷ at 0 deliver
    ∷ []

stops_exactly_example :
    (stop_task (
        answer_of {Error = ℕ} (
          join_answer polling
            (wait_reply 0)
            (happen_all build_uri spawn signal_name later awaited).supervisor))
      ≡ ok true)
    ↔ All (λ a. IsOver a.1) (happen_all build_uri spawn signal_name later awaited).supervisor.actors
unfolding awaited
stops_exactly_example =
    stops_exactly build_uri spawn signal_name stop_rx two_sleepers 0 polling 20 awaited later
      awaited-Reach refl
      ((((none, refl), omega arith), inl refl), ((((none, refl), omega arith), inl refl), tt))
      (tt, (omega arith, (tt, (tt, ((exits 1, omega arith, refl), (tt, tt))))))

abbrev web : HttpRelay
web = record {
  port = 8080;
  path = codes "/web";
  https = false;
  strip_path = true;
  health_check = none;
}

abbrev server : Program
server = record {
  command = record { cmd = codes "serve"; args = [] };
  env = [];
  http = some web;
  retry = record { window = 10; count = 1; delay = 2 };
  grace = 3;
}

abbrev config : Config
config = record {
  bind = record { ip = codes "0.0.0.0"; port = 8000 };
  api_scope = codes "/blahaj";
  programs = (codes "a", record server { http = none }) ∷ (codes "b", server) ∷ [];
}

abbrev request : HttpRequest (Str × Option Str)
request = record {
  uri = (codes "/web/x", none);
  scheme = codes "http";
  host = codes "h";
  version = codes "HTTP/1.1";
  peer_addr = none;
  header = λ name. none;
}

abbrev answer : ClientResponse Str Str
answer = record { status = 200; headers = (codes "etag", codes "1") ∷ []; body = inr (codes "hi") }

abbrev answering : List (Str × Str) → Str → Str ⊎ ClientResponse Str Str
answering sent body = inr answer

web-longest :
    (other : HttpRelay)
    → Memᴰ other (web ∷ [])
    → IsAncestor (key_of other) (codes "web/x")
    → length (key_of other) ≤ length (key_of web)
web-longest other (Memᴰ.head e) above = rw e (omega arith)
web-longest other (Memᴰ.tail m) above = elim m [ ]

program_served_example :
    forward builders plain (λ u. u.0) clients answering (proxy_config config) request (codes "")
    ≡ ok (
        inr (record {
          builder = copy_headers builders answer.headers (builders.build 200);
          body = some (codes "hi");
        }))
unfolding relays_of trim trim_start authority_text show_u16
program_served_example =
    program_served builders plain (λ u. u.0) clients answering config (codes "b") server web request
      (codes "") (codes "hi") (codes "/x") (codes "/x") (codes "127.0.0.1:8080")
      (codes "127.0.0.1:8080/x", none) answer (tt, tt) (Memᴰ.tail (Memᴰ.head refl)) refl refl refl
      (inr (codes "x", refl)) web-longest refl refl refl refl refl

abbrev files_relay : HttpRelay
files_relay = record web { port = 9000; path = codes "/files" }

-- The two programs, which both have a relay.
abbrev first_order : List (Str × Program)
first_order = (codes "a", record server { http = some files_relay }) ∷ (codes "b", server) ∷ []

abbrev second_order : List (Str × Program)
second_order = (codes "b", server) ∷ (codes "a", record server { http = some files_relay }) ∷ []

forward-order_example :
    forward builders plain
      (λ u. u.0)
      clients
      answering
      (proxy_config (record config { programs = first_order }))
      request
      (codes "")
    ≡ forward builders plain
        (λ u. u.0)
        clients
        answering
        (proxy_config (record config { programs = second_order }))
        request
        (codes "")
unfolding relays_of trim trim_start
forward-order_example =
    forward-order builders plain (λ u. u.0) clients answering
      (record config { programs = first_order }) second_order request (codes "")
      (((λ e. omega (arith, ap length e)), tt), (tt, tt)) (Permᴰ.swap refl refl)
