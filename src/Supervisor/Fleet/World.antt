-- ===== src/Supervisor/Fleet/World.antt =====
-- The supervisor of src/supervisor/mod.rs with its caretakers, their mailboxes and the answers to
-- their `Wait`s, as `main` (src/main.rs) and the signal handler (src/ctrlc_handler.rs) use it.
use blahaj.Prelude.{
  ℕ, zero, suc, List, [], ◌∷◌, ◌++◌, Bool, true, false, Option, none, some, Outcome, ok, panic, ◌⊎◌,
  inl, inr, if◌then◌else◌,
}
use blahaj.Prelude.Text.{Str}
use blahaj.Config.{Program}
use blahaj.Proxy.{Scheme}
use blahaj.Supervisor.Futs.{Poll, ready, pending}
use blahaj.Supervisor.Caretaker.{Command, WaitAnswer, at_once, when_stopped, handle_wait}
use blahaj.Supervisor.Caretaker.Run.{Receiver, Spawned}
use blahaj.Supervisor.Caretaker.System
use blahaj.Supervisor.Caretaker.System.{System, Event, terminate_msg, wait_msg}
use blahaj.Supervisor.Fleet.{Supervisor, start, handle_join, handle_terminate_all}

-- How far the `Wait` is that `Join` sends to a caretaker: it is not sent, it is in the mailbox, it
-- waits for the broadcast, it is answered, or it is refused, since the mailbox is closed.
pub data Waiting : Type 0 where
  unsent queued subscribed answered refused : Waiting

-- A caretaker, or none once it panicked; the messages of the supervisor that it has not handled.
pub record Member : Type 0 where
  pub system : Option System
  pub mailbox : List Event
  pub waiting : Waiting

-- A message goes to the end of the mailbox, unless that is closed.
abbrev pub post_wait : Member → Member
post_wait m = elim m.system [
  | none ↦ record m { waiting = refused }
  | some _ ↦ record m { mailbox = m.mailbox ++ wait_msg ∷ []; waiting = queued }
]

abbrev pub post_terminate : Member → Member
post_terminate m = elim m.system [
  | none ↦ m
  | some _ ↦ record m { mailbox = m.mailbox ++ terminate_msg ∷ [] }
]

unfoldable pub post : Event → Member → Member
post wait_msg m = post_wait m
post terminate_msg m = post_terminate m
post _ m = m

-- What is sent to the actors in turn.
unfoldable pub post_all : List (Str × Member) → List (Member × Event) → List (Str × Member)
unfolding post
post_all ((name, m) ∷ actors) ((_, message) ∷ messages) =
    (name, post message m) ∷ post_all actors messages
post_all actors _ = actors

-- What a panic leaves of a `Wait`: one in the mailbox is refused. One that waits for the broadcast
-- does so on its own, and drops the error that it gets once the sender is gone: it is answered.
abbrev pub lost : Waiting → Waiting
lost queued = refused
lost subscribed = answered
lost waiting = waiting

-- A `Wait` that waits for the broadcast is answered once that is sent.
abbrev pub told_stopped : Option ℕ → Waiting → Waiting
told_stopped none subscribed = answered
told_stopped _ waiting = waiting

abbrev pub handled : Outcome System → Member → Member
handled panic m = record { system = none; mailbox = []; waiting = lost m.waiting }
handled (ok s) m = record m { system = some s; waiting = told_stopped s.actor.stopped_tx m.waiting }

abbrev pub received_wait : WaitAnswer → Waiting
received_wait at_once = answered
received_wait when_stopped = subscribed

abbrev pub received : Event → System → Waiting → Waiting
received wait_msg s waiting = received_wait (handle_wait s.actor).1
received _ s waiting = waiting

-- The next thing at a caretaker: the first message of its mailbox is handled, or something of its
-- own happens.
pub data Doing : Type 0 where
  deliver : Doing
  own : Event → Doing

-- `joined` and `terminated`: whether `Join` and `TerminateAll` were handled.
pub record World : Type 0 where
  pub supervisor : Supervisor Member
  pub joined : Bool
  pub terminated : Bool

pub data Happening : Type 0 where
  join : Happening
  terminate_all : Happening
  at : ℕ → Doing → Happening

-- What `Join` waits for, of a mailbox that is closed with the error.
abbrev pub wait_reply : {Error : Type 0} → Error → Member → Poll (Error ⊎ Unit {0})
wait_reply closed m = elim m.waiting [
  | answered ↦ ready (inr tt)
  | refused ↦ ready (inl closed)
  | _ ↦ pending
]

module _ (build_uri : Scheme → Str → Str → Option Str) (spawn : Command → Spawned)
    (signal_name : ℕ → Option Str) where
  abbrev next : Event → System → Outcome System
  next = System.step build_uri spawn signal_name

  unfoldable pub do_first : List Event → System → Member → Member
  do_first [] s m = m
  do_first (message ∷ rest) s m =
      handled (next message s) (record m { mailbox = rest; waiting = received message s m.waiting })

  unfoldable pub do_at : Doing → Member → Member
  unfolding do_first
  do_at doing m = elim m.system [
    | none ↦ m
    | some s ↦ elim doing [
      | deliver ↦ do_first m.mailbox s m
      | own event ↦ handled (next event s) m
    ]
  ]

  unfoldable pub do_nth : ℕ → Doing → List (Str × Member) → List (Str × Member)
  unfolding do_at
  do_nth place doing [] = []
  do_nth zero doing ((name, m) ∷ actors) = (name, do_at doing m) ∷ actors
  do_nth (suc place) doing (a ∷ actors) = a ∷ do_nth place doing actors

  -- `main` sends `Join` once.
  unfoldable pub happen : Happening → World → World
  unfolding do_nth post_all
  happen join w = if w.joined then w else record w {
    supervisor = record { actors = post_all w.supervisor.actors (handle_join w.supervisor) };
    joined = true;
  }
  happen terminate_all w = record w {
    supervisor = record {
      actors = post_all w.supervisor.actors (handle_terminate_all w.supervisor);
    };
    terminated = true;
  }
  happen (at place doing) w = record w {
    supervisor = record { actors = do_nth place doing w.supervisor.actors };
  }

  unfoldable pub happen_all : List Happening → World → World
  unfolding happen
  happen_all [] w = w
  happen_all (h ∷ later) w = happen_all later (happen h w)

  -- A caretaker as it is started; the receiver of its stop signal is a number of its own.
  unfoldable pub begin_member : (Str → Receiver) → Str → Program → Member
  begin_member stop_rx name program = record {
    system = some (System.start name program (stop_rx name));
    mailbox = [];
    waiting = unsent;
  }

  unfoldable pub begin : (Str → Receiver) → List (Str × Program) → World
  begin stop_rx programs = record {
    supervisor = start (begin_member stop_rx) programs;
    joined = false;
    terminated = false;
  }

  -- The worlds that can come to be.
  pub data Reach (stop_rx : Str → Receiver) (programs : List (Str × Program)) : World → Type 0 where
    begins : Reach stop_rx programs (begin stop_rx programs)
    goes_on :
        {w : World} (h : Happening) → Reach stop_rx programs w → Reach stop_rx programs (happen h w)
