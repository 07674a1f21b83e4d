-- ===== src/Supervisor/Fleet/Mail.antt =====
-- The messages in the mailboxes of the caretakers (src/supervisor/mod.rs): what the supervisor sends.
use blahaj.Prelude.{
  ℕ, List, [], ◌∷◌, ◌++◌, ◌≡◌, ◌≢◌, refl, ◌⊎◌, inl, inr, Option, some, Outcome, panic, All, arith,
}
use blahaj.Prelude.Text.{Str}
use blahaj.Config.{Program}
use blahaj.Proxy.{Scheme}
use blahaj.Supervisor.Caretaker.{Command, handle_terminate, handle_wait}
use blahaj.Supervisor.Caretaker.Run.{Receiver, Spawned}
use blahaj.Supervisor.Caretaker.System.{System, Event, terminate_msg, wait_msg, step}
use blahaj.Supervisor.Caretaker.Invariant.{IsSound}
use blahaj.Supervisor.Fleet.World.{
  Member, post, handled, Doing, deliver, own, World, do_first, do_at, begin_member, Reach,
}
use blahaj.Supervisor.Fleet.Members.{Each, do_at-cases, Reach-Each}

-- A message that the supervisor sends.
abbrev pub IsMessage : Event → Type 0
IsMessage e = (e ≡ wait_msg) ⊎ (e ≡ terminate_msg)

abbrev pub IsPosted : Member → Type 0
IsPosted m = All IsMessage m.mailbox

append-IsMessage :
    (mailbox : List Event) (e : Event)
    → All IsMessage mailbox
    → IsMessage e
    → All IsMessage (mailbox ++ e ∷ [])
append-IsMessage [] e h is = (is, tt)
append-IsMessage (x ∷ mailbox) e (i, h) is = (i, append-IsMessage mailbox e h is)

pub post-IsPosted : (e : Event) (m : Member) → IsMessage e → IsPosted m → IsPosted (post e m)
unfolding post
post-IsPosted e m is h = ground (arith, append-IsMessage m.mailbox e h is)

module _ (build_uri : Scheme → Str → Str → Option Str) (spawn : Command → Spawned)
    (signal_name : ℕ → Option Str) where
  -- The messages of the supervisor panic no caretaker.
  pub message-no_panic :
      (e : Event) (s : System)
      → IsMessage e
      → IsSound s
      → step build_uri spawn signal_name e s ≢ panic
  unfolding step handle_terminate handle_wait
  message-no_panic e s is sound = ground (arith, is, sound)

  handled-IsPosted : (o : Outcome System) (m : Member) → IsPosted m → IsPosted (handled o m)
  handled-IsPosted o m h = ground (arith, h)

  first-IsPosted :
      (mailbox : List Event) (s : System) (m : Member)
      → All IsMessage mailbox
      → IsPosted m
      → IsPosted (do_first build_uri spawn signal_name mailbox s m)
  unfolding do_first
  first-IsPosted [] s m h posted = posted
  first-IsPosted (e ∷ rest) s m (_, h) posted = handled-IsPosted _ _ h

  do_some-IsPosted :
      (doing : Doing) (s : System) (m : Member)
      → IsPosted m
      → IsPosted (do_at build_uri spawn signal_name doing (record m { system = some s }))
  unfolding do_at
  do_some-IsPosted deliver s m h = first-IsPosted m.mailbox s _ h h
  do_some-IsPosted (own e) s m h = handled-IsPosted _ _ h

  pub do_at-IsPosted :
      (doing : Doing) (m : Member)
      → IsPosted m
      → IsPosted (do_at build_uri spawn signal_name doing m)
  do_at-IsPosted doing m h =
      do_at-cases build_uri spawn signal_name IsPosted doing m (λ _. h)
        (λ s here. do_some-IsPosted doing s m h)

  -- In every world the mailboxes hold what the supervisor sends, and nothing else.
  pub Reach-IsPosted :
      (stop_rx : Str → Receiver) (programs : List (Str × Program)) (w : World)
      → Reach build_uri spawn signal_name stop_rx programs w
      → Each IsPosted w.supervisor.actors
  unfolding begin_member
  Reach-IsPosted stop_rx programs w =
      Reach-Each build_uri spawn signal_name IsPosted (λ m. post-IsPosted wait_msg m (inl refl))
        (λ m. post-IsPosted terminate_msg m (inr refl)) do_at-IsPosted stop_rx programs w
        (λ name program. tt)
