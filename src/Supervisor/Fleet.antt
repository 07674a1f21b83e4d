-- ===== src/Supervisor/Fleet.antt =====
-- src/supervisor/mod.rs: the actor that holds the caretakers. The crates `actix` and `futures` are
-- parameters: the address of a caretaker, what a message to it is answered with, and the joining
-- of answers.
pub mod World
pub mod Members
pub mod Sent
pub mod Shutdown
pub mod Awaiting
pub mod Gone
pub mod Mail
pub mod Stopping
pub mod Alive
pub mod Progress
pub mod Samples
use mathlib.Core.List.{Memᴰ}
use blahaj.Prelude.{All, ◌≢◌, List, ◌≡◌, ◌⊎◌, inl, inr, map}
use blahaj.Prelude.Text.{Str}
use blahaj.Config.{Program}
use blahaj.Supervisor.Lifecycle.{Lifecycle}
use blahaj.Supervisor.Futs.{Poll, ready, pending}
use blahaj.Supervisor.Caretaker.System.{Event, terminate_msg, wait_msg}

-- `try_join_all` of `futures`: all results if there is no error, else an error of one of them.
pub record Joining (Error : Type 0) : Type 1 where
  pub try_join_all : {A : Type 0} → List (Error ⊎ A) → Error ⊎ List A
  pub all_joined : {A : Type 0} (xs : List A) → try_join_all (map inr xs) ≡ inr xs
  pub one_failed :
      {A : Type 0} (results : List (Error ⊎ A)) (e : Error)
      → Memᴰ (inl e) results
      → (first : Error) × Memᴰ (inl first) results × (try_join_all results ≡ inl first)

-- The same future while some of the futures that it joins may be pending: it is ready as soon as
-- one of them has failed.
pub record Polling (Error : Type 0) : Type 1 where
  pub poll_join : {A : Type 0} → List (Poll (Error ⊎ A)) → Poll (Error ⊎ List A)
  pub all_ready :
      {A : Type 0} (xs : List A) → poll_join (map (λ x. ready (inr x)) xs) ≡ ready (inr xs)
  pub one_refused :
      {A : Type 0} (replies : List (Poll (Error ⊎ A))) (e : Error)
      → Memᴰ (ready (inl e)) replies
      → (first : Error) × (poll_join replies ≡ ready (inl first))
  pub one_pending :
      {A : Type 0} (replies : List (Poll (Error ⊎ A)))
      → Memᴰ pending replies
      → All (λ r. (e : Error) → r ≢ ready (inl e)) replies
      → poll_join replies ≡ pending

pub record Supervisor (Addr : Type 0) : Type 0 where
  pub actors : List (Str × Addr)

-- `Supervisor::start`; the argument makes a caretaker and starts it.
unfoldable pub start :
    {Addr : Type 0} → (Str → Program → Addr) → List (Str × Program) → Supervisor Addr
start start_caretaker programs = record {
  actors = map (λ (p : Str × Program). (p.0, start_caretaker p.0 p.1)) programs;
}

-- `Handler<Join>` and `Handler<TerminateAll>`: the messages that they send.
unfoldable pub handle_join : {Addr : Type 0} → Supervisor Addr → List (Addr × Event)
handle_join this = map (λ a. (a.1, wait_msg)) this.actors

-- What `Join` is answered with, from the answers to the messages: the error is dropped.
unfoldable pub join_answer :
    {Error Addr : Type 0}
    → Polling Error
    → (Addr → Poll (Error ⊎ Unit {0}))
    → Supervisor Addr
    → Poll (Unit {0})
join_answer join reply this = elim (join.poll_join (map (λ a. reply a.1) this.actors)) [
  | ready _ ↦ ready tt
  | pending ↦ pending
]

unfoldable pub handle_terminate_all : {Addr : Type 0} → Supervisor Addr → List (Addr × Event)
handle_terminate_all this = map (λ a. (a.1, terminate_msg)) this.actors

-- `Result::map` over the answer of one caretaker.
unfoldable pub named_answer : {Error : Type 0} → Str → Error ⊎ Lifecycle → Error ⊎ (Str × Lifecycle)
named_answer name (inl e) = inl e
named_answer name (inr lifecycle) = inr (name, lifecycle)

-- `Handler<GetStatusAll>`; `send` is what `GetStatus` is answered with.
unfoldable pub handle_get_status_all :
    {Error Addr : Type 0}
    → Joining Error
    → (Addr → Error ⊎ Lifecycle)
    → Supervisor Addr
    → Error ⊎ List (Str × Lifecycle)
handle_get_status_all join send this =
    join.try_join_all (map (λ a. named_answer a.0 (send a.1)) this.actors)
