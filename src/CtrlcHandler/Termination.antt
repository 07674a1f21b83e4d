-- ===== src/CtrlcHandler/Termination.antt =====
-- What a signal brings about (src/ctrlc_handler.rs with src/supervisor/mod.rs).
use blahaj.Prelude.{
  ℕ, zero, suc, ◌-◌, ◌<◌, ◌≤◌, List, [], ◌∷◌, ◌++◌, ◌≡◌, refl, subst, true, Option, none, some, All,
  length, arith,
}
use blahaj.Prelude.Text.{Str}
use blahaj.Config.{Program}
use blahaj.Proxy.{Scheme}
use blahaj.Supervisor.Caretaker.{Command}
use blahaj.Supervisor.Caretaker.Run.{Receiver, Spawned}
use blahaj.Supervisor.Fleet.World.{at, happen, Reach, begins, goes_on}
use blahaj.Supervisor.Fleet.Sent.{IsTold, Reach-IsTold, happen-terminated}
use blahaj.CtrlcHandler.{Message, terminate_all_msg, SignalHandler, handle_signal}
use blahaj.CtrlcHandler.Signalled.{
  Signalled, Occurrence, signal, send_join, next_message, elsewhere, handling, handle_next, occur,
  occur_all, begin,
}

abbrev pub message_at : ℕ → List Message → Option Message
message_at place [] = none
message_at zero (message ∷ messages) = some message
message_at (suc place) (message ∷ messages) = message_at place messages

message_at-append :
    (place : ℕ) (messages : List Message) (last m : Message)
    → message_at place messages ≡ some m
    → message_at place (messages ++ last ∷ []) ≡ some m
message_at-append place [] last m e = ground (arith, e)
message_at-append zero (x ∷ messages) last m e = e
message_at-append (suc place) (x ∷ messages) last m e = message_at-append place messages last m e

message_at-last :
    (messages : List Message) (last : Message)
    → message_at (length messages) (messages ++ last ∷ []) ≡ some last
message_at-last [] last = refl
message_at-last (x ∷ messages) last = message_at-last messages last

-- How many messages the supervisor handles.
abbrev pub handled_in : List Occurrence → ℕ
handled_in [] = 0
handled_in (next_message ∷ later) = suc (handled_in later)
handled_in (_ ∷ later) = handled_in later

module _ (build_uri : Scheme → Str → Str → Option Str) (spawn : Command → Spawned)
    (signal_name : ℕ → Option Str) {Handle : Type 0} where
  abbrev after : Occurrence → Signalled Handle → Signalled Handle
  after = occur build_uri spawn signal_name

  abbrev after_all : List Occurrence → Signalled Handle → Signalled Handle
  after_all = occur_all build_uri spawn signal_name

  abbrev next : List Message → Signalled Handle → Signalled Handle
  next = handle_next build_uri spawn signal_name

  next-terminated :
      (inbox : List Message) (s : Signalled Handle)
      → s.world.terminated ≡ true
      → (next inbox s).world.terminated ≡ true
  unfolding handle_next
  next-terminated [] s e = e
  next-terminated (message ∷ rest) s e =
      happen-terminated build_uri spawn signal_name (handling message) s.world e

  occur-terminated :
      (o : Occurrence) (s : Signalled Handle)
      → s.world.terminated ≡ true
      → (after o s).world.terminated ≡ true
  unfolding occur
  occur-terminated (signal number) s e = e
  occur-terminated send_join s e = e
  occur-terminated next_message s e = next-terminated s.inbox s e
  occur-terminated (elsewhere place doing) s e =
      happen-terminated build_uri spawn signal_name _ s.world e

  occur_all-terminated :
      (later : List Occurrence) (s : Signalled Handle)
      → s.world.terminated ≡ true
      → (after_all later s).world.terminated ≡ true
  unfolding occur_all
  occur_all-terminated [] s e = e
  occur_all-terminated (o ∷ later) s e =
      occur_all-terminated later (after o s) (occur-terminated o s e)

  -- How far a `TerminateAll` is after the supervisor has handled some messages, which had a place in
  -- the mailbox before.
  abbrev Comes : ℕ → ℕ → Signalled Handle → Type 0
  Comes place count t =
      (place < count → t.world.terminated ≡ true)
      × (count ≤ place → message_at (place - count) t.inbox ≡ some terminate_all_msg)

  abbrev Waits : ℕ → Signalled Handle → Type 0
  Waits place s = message_at place s.inbox ≡ some terminate_all_msg

  shift-Comes :
      (place count : ℕ) (t : Signalled Handle)
      → Comes place count t
      → Comes (suc place) (suc count) t
  shift-Comes place count t (early, late) = (
    (λ lt. early (omega (arith, lt))),
    λ le.
        subst (λ n. message_at n t.inbox ≡ some terminate_all_msg) (omega arith)
          (late (omega (arith, le))),
  )

  now-Comes :
      (count : ℕ) (t : Signalled Handle) → t.world.terminated ≡ true → Comes zero (suc count) t
  now-Comes count t e = ((λ lt. e), λ le. absurd (omega (arith, le)))

  -- The supervisor handles the next message: the one that is waited for, or one before it.
  next-Comes :
      (inbox : List Message) (place count : ℕ) (later : List Occurrence) (s : Signalled Handle)
      → ((k : ℕ) (u : Signalled Handle) → Waits k u → Comes k count (after_all later u))
      → message_at place inbox ≡ some terminate_all_msg
      → Comes place (suc count) (after_all later (next inbox s))
  unfolding handle_next happen
  next-Comes [] place count later s ih waits = absurd (ground (arith, waits))
  next-Comes (message ∷ rest) zero count later s ih waits =
      now-Comes count (after_all later (next (message ∷ rest) s))
        (occur_all-terminated later (next (message ∷ rest) s) (ground (arith, waits)))
  next-Comes (message ∷ rest) (suc place) count later s ih waits =
      shift-Comes place count (after_all later (next (message ∷ rest) s))
        (ih place (next (message ∷ rest) s) waits)

  occur_all-Comes :
      (later : List Occurrence) (place : ℕ) (s : Signalled Handle)
      → Waits place s
      → Comes place (handled_in later) (after_all later s)
  unfolding occur_all occur
  occur_all-Comes [] place s waits = (
    (λ lt. absurd (omega (arith, lt))),
    λ le. subst (λ n. message_at n s.inbox ≡ some terminate_all_msg) (omega arith) waits,
  )
  occur_all-Comes (signal number ∷ later) place s waits =
      occur_all-Comes later place _ (message_at-append place s.inbox _ _ waits)
  occur_all-Comes (send_join ∷ later) place s waits =
      occur_all-Comes later place _ (message_at-append place s.inbox _ _ waits)
  occur_all-Comes (elsewhere at_place doing ∷ later) place s waits =
      occur_all-Comes later place _ waits
  occur_all-Comes (next_message ∷ later) place s waits =
      next-Comes s.inbox place (handled_in later) later s (occur_all-Comes later) waits

  module _ (stop_rx : Str → Receiver) (programs : List (Str × Program)) where
    next-Reached :
        (inbox : List Message) (s : Signalled Handle)
        → Reach build_uri spawn signal_name stop_rx programs s.world
        → Reach build_uri spawn signal_name stop_rx programs (next inbox s).world
    unfolding handle_next
    next-Reached [] s reach = reach
    next-Reached (message ∷ rest) s reach = goes_on (handling message) reach

    occur-Reached :
        (o : Occurrence) (s : Signalled Handle)
        → Reach build_uri spawn signal_name stop_rx programs s.world
        → Reach build_uri spawn signal_name stop_rx programs (after o s).world
    unfolding occur
    occur-Reached (signal number) s reach = reach
    occur-Reached send_join s reach = reach
    occur-Reached next_message s reach = next-Reached s.inbox s reach
    occur-Reached (elsewhere place doing) s reach = goes_on (at place doing) reach

    occur_all-Reached :
        (later : List Occurrence) (s : Signalled Handle)
        → Reach build_uri spawn signal_name stop_rx programs s.world
        → Reach build_uri spawn signal_name stop_rx programs (after_all later s).world
    unfolding occur_all
    occur_all-Reached [] s reach = reach
    occur_all-Reached (o ∷ later) s reach =
        occur_all-Reached later (after o s) (occur-Reached o s reach)

    begin-Reached :
        (handler : SignalHandler Handle)
        → Reach build_uri spawn signal_name stop_rx programs
            (begin build_uri spawn signal_name stop_rx programs handler).world
    unfolding begin
    begin-Reached handler = begins

    -- A signal, at any time: whatever happens later, once the supervisor has handled the messages
    -- that were in its mailbox before the signal and one more, each caretaker that has not panicked
    -- has sent the stop signal to its daemon (or the daemon is done and has no sender any more), or
    -- has a `Terminate` in its mailbox. Until then the `TerminateAll` is in the supervisor's mailbox,
    -- behind those that are left of the messages before it.
    pub signal_tells :
        (handler : SignalHandler Handle) (before later : List Occurrence) (number : ℕ)
        → let s = after_all before (begin build_uri spawn signal_name stop_rx programs handler) in
          let t = after_all later (after (signal number) s) in
          (length s.inbox < handled_in later → All (λ a. IsTold a.1) t.world.supervisor.actors)
          × (handled_in later ≤ length s.inbox
              → message_at (length s.inbox - handled_in later) t.inbox ≡ some terminate_all_msg)
    unfolding occur handle_signal
    signal_tells handler before later number =
        let s = after_all before (begin build_uri spawn signal_name stop_rx programs handler) in
        let u = after (signal number) s in
        let reach =
          occur_all-Reached later u (occur_all-Reached before _ (begin-Reached handler)) in
        let (told, waits) =
          occur_all-Comes later (length s.inbox) u (message_at-last s.inbox terminate_all_msg) in
        (
          (λ lt.
              Reach-IsTold build_uri spawn signal_name stop_rx programs (after_all later u).world
                reach (told lt)),
          waits,
        )
