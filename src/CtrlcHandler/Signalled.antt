-- ===== src/CtrlcHandler/Signalled.antt =====
-- The signal handler (src/ctrlc_handler.rs) beside the supervisor (src/supervisor/mod.rs), whose
-- messages wait in its mailbox until it handles them.
use blahaj.Prelude.{ℕ, List, [], ◌∷◌, ◌++◌, Option}
use blahaj.Prelude.Text.{Str}
use blahaj.Config.{Program}
use blahaj.Proxy.{Scheme}
use blahaj.Logger.{Custom}
use blahaj.Supervisor.Caretaker.{Command}
use blahaj.Supervisor.Caretaker.Run.{Receiver, Spawned}
use blahaj.Supervisor.Fleet.World
use blahaj.Supervisor.Fleet.World.{World, Doing, Happening, join, terminate_all, at, happen}
use blahaj.CtrlcHandler.{Message, join_msg, terminate_all_msg, SignalHandler, handle_signal}

-- The world of the supervisor, the messages that it has not handled, and what the handler logged.
pub record Signalled (Handle : Type 0) : Type 0 where
  pub world : World
  pub inbox : List Message
  pub handler : SignalHandler Handle
  pub logged : List Custom

-- What happens next: the handler hears a signal, `main` sends `Join` (which it does once, so that a
-- second one changes nothing in the world), the supervisor handles its next
-- message, or something happens at a caretaker.
pub data Occurrence : Type 0 where
  signal : ℕ → Occurrence
  send_join : Occurrence
  next_message : Occurrence
  elsewhere : ℕ → Doing → Occurrence

-- A message as it is handled.
abbrev pub handling : Message → Happening
handling join_msg = join
handling terminate_all_msg = terminate_all

module _ (build_uri : Scheme → Str → Str → Option Str) (spawn : Command → Spawned)
    (signal_name : ℕ → Option Str) {Handle : Type 0} where
  unfoldable pub handle_next : List Message → Signalled Handle → Signalled Handle
  handle_next [] s = s
  handle_next (message ∷ rest) s = record s {
    world = happen build_uri spawn signal_name (handling message) s.world;
    inbox = rest;
  }

  unfoldable pub occur : Occurrence → Signalled Handle → Signalled Handle
  unfolding handle_next
  occur (signal number) s =
      let (line, message) = handle_signal number s.handler in
      record s { inbox = s.inbox ++ message ∷ []; logged = s.logged ++ line ∷ [] }
  occur send_join s = record s { inbox = s.inbox ++ join_msg ∷ [] }
  occur next_message s = handle_next s.inbox s
  occur (elsewhere place doing) s = record s {
    world = happen build_uri spawn signal_name (at place doing) s.world;
  }

  unfoldable pub occur_all : List Occurrence → Signalled Handle → Signalled Handle
  unfolding occur
  occur_all [] s = s
  occur_all (o ∷ later) s = occur_all later (occur o s)

  -- As `main` starts them.
  unfoldable pub begin :
      (Str → Receiver) → List (Str × Program) → SignalHandler Handle → Signalled Handle
  begin stop_rx programs handler = record {
    world = World.begin build_uri spawn signal_name stop_rx programs;
    inbox = [];
    handler = handler;
    logged = [];
  }
