-- ===== src/Supervisor/Fleet/Sent.antt =====
-- What `Join` and `TerminateAll` (src/supervisor/mod.rs) leave at each caretaker.
use blahaj.Prelude.{
  ℕ, List, [], ◌∷◌, ◌++◌, ◌≡◌, ◌≢◌, refl, ◌⊎◌, inl, inr, Bool, true, false, Option, none, some,
  Outcome, Outcome-cases, All, arith,
}
use blahaj.Prelude.Text.{Str}
use blahaj.Config.{Program}
use blahaj.Proxy.{Scheme}
use blahaj.Supervisor.Caretaker.{Command, handle_wait}
use blahaj.Supervisor.Caretaker.Run.{Receiver, Spawned}
use blahaj.Supervisor.Caretaker.System.{System, Event, terminate_msg, wait_msg, step}
use blahaj.Supervisor.Caretaker.Terminating.{step-stop_tx}
use blahaj.Supervisor.Fleet.{handle_join, handle_terminate_all}
use blahaj.Supervisor.Fleet.World.{
  Waiting, unsent, Member, post, handled, Doing, deliver, own, World, Happening, join,
  terminate_all, at, do_first, do_at, happen, happen_all, begin, Reach, begins, goes_on,
}
use blahaj.Supervisor.Fleet.Members.{Each, do_at-cases, post_all-Each, do_nth-Each}

abbrev pub IsSent : Member → Type 0
IsSent m = m.waiting ≢ unsent

abbrev pub has_terminate : List Event → Bool
has_terminate [] = false
has_terminate (terminate_msg ∷ mailbox) = true
has_terminate (_ ∷ mailbox) = has_terminate mailbox

-- The stop signal was sent, or a `Terminate` is in the mailbox.
abbrev pub ToldSystem : List Event → Option System → Type 0
ToldSystem mailbox none = Unit
ToldSystem mailbox (some s) = (s.actor.stop_tx ≡ false) ⊎ (has_terminate mailbox ≡ true)

abbrev pub IsTold : Member → Type 0
IsTold m = ToldSystem m.mailbox m.system

has_terminate-append :
    (mailbox : List Event) (e : Event)
    → has_terminate mailbox ≡ true
    → has_terminate (mailbox ++ e ∷ []) ≡ true
has_terminate-append [] e h = ground (arith, h)
has_terminate-append (terminate_msg ∷ mailbox) e h = refl
has_terminate-append (_ ∷ mailbox) e h = ground (arith, has_terminate-append mailbox e)

has_terminate-last : (mailbox : List Event) → has_terminate (mailbox ++ terminate_msg ∷ []) ≡ true
has_terminate-last [] = refl
has_terminate-last (x ∷ mailbox) = ground (arith, has_terminate-last mailbox)

post_wait-IsSent : (m : Member) → IsSent (post wait_msg m)
unfolding post
post_wait-IsSent m = ground arith

post-IsSent : (e : Event) (m : Member) → IsSent m → IsSent (post e m)
unfolding post
post-IsSent e m h = ground arith

post_terminate-IsTold : (m : Member) → IsTold (post terminate_msg m)
unfolding post
post_terminate-IsTold m = ground (arith, has_terminate-last m.mailbox)

post_wait-IsTold : (m : Member) → IsTold m → IsTold (post wait_msg m)
unfolding post
post_wait-IsTold m h = ground (arith, has_terminate-append m.mailbox wait_msg)

module _ (build_uri : Scheme → Str → Str → Option Str) (spawn : Command → Spawned)
    (signal_name : ℕ → Option Str) where
  abbrev next : Event → System → Outcome System
  next = step build_uri spawn signal_name

  handled-IsSent : (o : Outcome System) (m : Member) → IsSent m → IsSent (handled o m)
  handled-IsSent o m h = ground arith

  first-IsSent :
      (mailbox : List Event) (s : System) (m : Member)
      → IsSent m
      → IsSent (do_first build_uri spawn signal_name mailbox s m)
  unfolding do_first handle_wait
  first-IsSent [] s m h = h
  first-IsSent (wait_msg ∷ rest) s m h = handled-IsSent (next wait_msg s) _ (ground arith)
  first-IsSent (e ∷ rest) s m h = handled-IsSent (next e s) _ h

  do_some-IsSent :
      (doing : Doing) (s : System) (m : Member)
      → IsSent m
      → IsSent (do_at build_uri spawn signal_name doing (record m { system = some s }))
  unfolding do_at
  do_some-IsSent deliver s m h = first-IsSent m.mailbox s _ h
  do_some-IsSent (own e) s m h = handled-IsSent (next e s) _ h

  pub do_at-IsSent :
      (doing : Doing) (m : Member) → IsSent m → IsSent (do_at build_uri spawn signal_name doing m)
  do_at-IsSent doing m h =
      do_at-cases build_uri spawn signal_name IsSent doing m (λ _. h)
        (λ s here. do_some-IsSent doing s m h)

  handled-IsTold :
      (e : Event) (s : System) (m : Member)
      → (s.actor.stop_tx ≡ false) ⊎ ((e ≡ terminate_msg) ⊎ (has_terminate m.mailbox ≡ true))
      → IsTold (handled (next e s) m)
  handled-IsTold e s m told = elim (Outcome-cases (next e s)) [
    | inl panics ↦ rw (panics) tt
    | inr (t, moved) ↦
        rw (moved) (ground (arith, step-stop_tx build_uri spawn signal_name e s t, told, moved))
  ]

  first-IsTold :
      (mailbox : List Event) (s : System) (m : Member)
      → ToldSystem mailbox (some s)
      → ToldSystem m.mailbox m.system ⊎ (mailbox ≢ [])
      → IsTold (do_first build_uri spawn signal_name mailbox s m)
  unfolding do_first
  first-IsTold [] s m told here = ground (arith, here)
  first-IsTold (terminate_msg ∷ rest) s m told here =
      handled-IsTold terminate_msg s _ (inr (inl refl))
  first-IsTold (e ∷ rest) s m told here = handled-IsTold e s _ (ground (arith, told))

  do_some-IsTold :
      (doing : Doing) (s : System) (mailbox : List Event) (waiting : Waiting)
      → ToldSystem mailbox (some s)
      → IsTold (
          do_at build_uri spawn signal_name doing
            (record { system = some s; mailbox = mailbox; waiting = waiting }))
  unfolding do_at
  do_some-IsTold deliver s mailbox waiting told = first-IsTold mailbox s _ told (inl told)
  do_some-IsTold (own e) s mailbox waiting told = handled-IsTold e s _ (ground (arith, told))

  pub do_at-IsTold :
      (doing : Doing) (m : Member) → IsTold m → IsTold (do_at build_uri spawn signal_name doing m)
  do_at-IsTold doing m h =
      do_at-cases build_uri spawn signal_name IsTold doing m (λ _. h)
        (λ s here. do_some-IsTold doing s m.mailbox m.waiting (rw (here) at h))

  each : (actors : List (Str × Member)) → Each (λ m. Unit {0}) actors
  each [] = tt
  each (a ∷ actors) = (tt, each actors)

  -- Once `Join` was handled, each caretaker has its `Wait`.
  happen-IsSent :
      (h : Happening) (w : World)
      → (w.joined ≡ true → Each IsSent w.supervisor.actors)
      → (happen build_uri spawn signal_name h w).joined ≡ true
      → Each IsSent (happen build_uri spawn signal_name h w).supervisor.actors
  unfolding happen handle_join handle_terminate_all
  happen-IsSent join w before now = ground (
    arith,
    before,
    post_all-Each (λ m. Unit {0}) IsSent wait_msg w.supervisor.actors (λ m _. post_wait-IsSent m)
        (each w.supervisor.actors),
  )
  happen-IsSent terminate_all w before now =
      post_all-Each IsSent IsSent terminate_msg w.supervisor.actors (post-IsSent terminate_msg)
        (before now)
  happen-IsSent (at place doing) w before now =
      do_nth-Each build_uri spawn signal_name IsSent place doing w.supervisor.actors
        (do_at-IsSent doing) (before now)

  happen-IsTold :
      (h : Happening) (w : World)
      → (w.terminated ≡ true → Each IsTold w.supervisor.actors)
      → (happen build_uri spawn signal_name h w).terminated ≡ true
      → Each IsTold (happen build_uri spawn signal_name h w).supervisor.actors
  unfolding happen handle_join handle_terminate_all
  happen-IsTold join w before now = ground (
    arith,
    before,
    now,
    post_all-Each IsTold IsTold wait_msg w.supervisor.actors post_wait-IsTold,
  )
  happen-IsTold terminate_all w before now =
      post_all-Each (λ m. Unit {0}) IsTold terminate_msg w.supervisor.actors
        (λ m _. post_terminate-IsTold m) (each w.supervisor.actors)
  happen-IsTold (at place doing) w before now =
      do_nth-Each build_uri spawn signal_name IsTold place doing w.supervisor.actors
        (do_at-IsTold doing) (before now)

  module _ (stop_rx : Str → Receiver) (programs : List (Str × Program)) where
    pub Reach-IsSent :
        (w : World)
        → Reach build_uri spawn signal_name stop_rx programs w
        → w.joined ≡ true
        → All (λ a. IsSent a.1) w.supervisor.actors
    unfolding begin
    Reach-IsSent w begins joined = ground (arith, joined)
    Reach-IsSent w (goes_on {w = v} h r) joined = happen-IsSent h v (Reach-IsSent v r) joined

    pub Reach-happen_all :
        (later : List Happening) (w : World)
        → Reach build_uri spawn signal_name stop_rx programs w
        → Reach build_uri spawn signal_name stop_rx programs
            (happen_all build_uri spawn signal_name later w)
    unfolding happen_all
    Reach-happen_all [] w r = r
    Reach-happen_all (h ∷ later) w r = Reach-happen_all later _ (goes_on h r)

    -- Once `TerminateAll` was handled, each caretaker that has not panicked has sent the stop signal
    -- or given up its sender, or has a `Terminate` in its mailbox, whatever came before and comes
    -- after.
    pub Reach-IsTold :
        (w : World)
        → Reach build_uri spawn signal_name stop_rx programs w
        → w.terminated ≡ true
        → All (λ a. IsTold a.1) w.supervisor.actors
    unfolding begin
    Reach-IsTold w begins terminated = ground (arith, terminated)
    Reach-IsTold w (goes_on {w = v} h r) terminated =
        happen-IsTold h v (Reach-IsTold v r) terminated

  pub happen-terminated :
      (h : Happening) (w : World)
      → w.terminated ≡ true
      → (happen build_uri spawn signal_name h w).terminated ≡ true
  unfolding happen
  happen-terminated h w e = ground arith

  pub happen_all-terminated :
      (later : List Happening) (w : World)
      → w.terminated ≡ true
      → (happen_all build_uri spawn signal_name later w).terminated ≡ true
  unfolding happen_all
  happen_all-terminated [] w e = e
  happen_all-terminated (h ∷ later) w e = happen_all-terminated later _ (happen-terminated h w e)
