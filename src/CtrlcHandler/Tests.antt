-- ===== src/CtrlcHandler/Tests.antt =====
-- A signal (src/ctrlc_handler.rs) that comes before a child is there.
use blahaj.Prelude.{ℕ, length, ◌<◌, ◌≤◌, ◌-◌, List, [], ◌∷◌, ◌≡◌, refl, none, some, ok, All}
use blahaj.Supervisor.Caretaker.System.{handle_daemon}
use blahaj.Supervisor.Fleet.World.{own, deliver}
use blahaj.Supervisor.Fleet.Sent.{IsTold}
use blahaj.Supervisor.Fleet.Samples.{build_uri, spawn, signal_name, stop_rx, two_programs}
use blahaj.CtrlcHandler.Signalled.{
  Signalled, Occurrence, signal, send_join, next_message, elsewhere, occur, occur_all, begin,
}
use blahaj.CtrlcHandler.{terminate_all_msg, SignalHandler, new, started, stopping}
use blahaj.CtrlcHandler.Termination.{message_at, signal_tells}

abbrev hearing : SignalHandler ℕ
hearing = record { handle = some 3 }

abbrev begun : Signalled ℕ
begun = begin build_uri spawn signal_name stop_rx two_programs hearing

abbrev after_all : List Occurrence → Signalled ℕ → Signalled ℕ
after_all = occur_all build_uri spawn signal_name

-- `Join` is in the supervisor's mailbox when the signal comes.
abbrev main_begins : List Occurrence
main_begins = elsewhere 0 (own handle_daemon) ∷ send_join ∷ []

abbrev later : List Occurrence
later = next_message ∷ elsewhere 0 deliver ∷ next_message ∷ elsewhere 1 deliver ∷ []

started_test : started (some 3) new ≡ ok hearing
unfolding started new
started_test = refl

stopping_test : stopping hearing ≡ (record { handle = none }, some 3)
unfolding stopping
stopping_test = refl

signal_tells_example :
    let s = after_all main_begins begun in
    let t = after_all later (occur build_uri spawn signal_name (signal 15) s) in
    (length s.inbox < 2 → All (λ a. IsTold a.1) t.world.supervisor.actors)
    × (2 ≤ length s.inbox → message_at (length s.inbox - 2) t.inbox ≡ some terminate_all_msg)
signal_tells_example =
    signal_tells build_uri spawn signal_name stop_rx two_programs hearing main_begins later 15
