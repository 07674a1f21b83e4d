-- ===== src/Supervisor/Fleet/Members.antt =====
-- What holds of the supervisor and its caretakers in every world that can come to be
-- (src/supervisor/mod.rs, src/supervisor/caretaker.rs).
use blahaj.Prelude.{
  ℕ, zero, suc, List, [], ◌∷◌, ◌++◌, ◌≡◌, refl, sym, subst, inl, inr, Bool, true, false, Option,
  none, some, Outcome, ok, panic, Outcome-cases, Option-cases, is_some, All, map, arith,
}
use blahaj.Prelude.Text.{Str}
use blahaj.Config.{Program}
use blahaj.Proxy.{Scheme}
use blahaj.Supervisor.Caretaker.{Command, handle_wait}
use blahaj.Supervisor.Caretaker.Run.{Receiver, Spawned}
use blahaj.Supervisor.Caretaker.System.{System, Event, terminate_msg, wait_msg, over, step}
use blahaj.Supervisor.Caretaker.Invariant.{IsSound, start-IsSound, step-IsSound}
use blahaj.Supervisor.Caretaker.Endings.{step-over}
use blahaj.Supervisor.Fleet.{start, handle_join, handle_terminate_all}
use blahaj.Supervisor.Fleet.World.{
  Waiting, unsent, queued, subscribed, answered, refused, Member, post, post_all, handled, received,
  Doing, deliver, own, World, Happening, join, terminate_all, at, do_first, do_at, do_nth, happen,
  begin_member, begin, Reach, begins, goes_on,
}

abbrev pub has_wait : List Event → Bool
has_wait [] = false
has_wait (wait_msg ∷ mailbox) = true
has_wait (_ ∷ mailbox) = has_wait mailbox

-- How far a `Wait` is fits the caretaker and its mailbox.
abbrev pub Fits : Waiting → System → List Event → Type 0
Fits unsent s mailbox = Unit
Fits queued s mailbox = has_wait mailbox ≡ true
Fits subscribed s mailbox = is_some s.actor.stopped_tx ≡ true
Fits answered s mailbox = s.actor.stopped_tx ≡ none
Fits refused s mailbox = ⊥

abbrev pub SoundMember : Option System → List Event → Waiting → Type 0
SoundMember (some s) mailbox waiting = IsSound s × Fits waiting s mailbox
SoundMember none mailbox unsent = Unit
SoundMember none mailbox refused = Unit
SoundMember none mailbox answered = Unit
SoundMember none mailbox _ = ⊥

abbrev pub IsSoundMember : Member → Type 0
IsSoundMember m = SoundMember m.system m.mailbox m.waiting

has_wait-append :
    (mailbox : List Event) (e : Event)
    → has_wait mailbox ≡ true
    → has_wait (mailbox ++ e ∷ []) ≡ true
has_wait-append [] e h = ground (arith, h)
has_wait-append (wait_msg ∷ mailbox) e h = refl
has_wait-append (_ ∷ mailbox) e h = ground (arith, has_wait-append mailbox e)

has_wait-last : (mailbox : List Event) → has_wait (mailbox ++ wait_msg ∷ []) ≡ true
has_wait-last [] = refl
has_wait-last (x ∷ mailbox) = ground (arith, has_wait-last mailbox)

pub post-IsSound : (e : Event) (m : Member) → IsSoundMember m → IsSoundMember (post e m)
unfolding post
post-IsSound wait_msg m h = ground (arith, has_wait-last m.mailbox)
post-IsSound terminate_msg m h = ground (arith, has_wait-append m.mailbox terminate_msg)
post-IsSound _ m h = h

-- A property of each caretaker.
abbrev pub Each : (Member → Type 0) → List (Str × Member) → Type 0
Each P = All (λ a. P a.1)

pub post_all-Each :
    (P Q : Member → Type 0) (message : Event) (actors : List (Str × Member))
    → ((m : Member) → P m → Q (post message m))
    → Each P actors
    → Each Q (post_all actors (map (λ a. (a.1, message)) actors))
unfolding post_all
post_all-Each P Q message [] posts h = tt
post_all-Each P Q message (a ∷ actors) posts (p, h) =
    (posts a.1 p, post_all-Each P Q message actors posts h)

module _ (build_uri : Scheme → Str → Str → Option Str) (spawn : Command → Spawned)
    (signal_name : ℕ → Option Str) where
  abbrev next : Event → System → Outcome System
  next = step build_uri spawn signal_name

  -- The broadcast stays sent.
  step-stopped_tx :
      (e : Event) (s t : System)
      → IsSound s
      → s.actor.stopped_tx ≡ none
      → next e s ≡ ok t
      → t.actor.stopped_tx ≡ none
  step-stopped_tx e s t sound gone moved =
      let done : s.daemon ≡ over = ground (arith, sound) in
      let same = step-over build_uri spawn signal_name e s done in
      ground (arith, sound, same, moved)

  -- A caretaker whose broadcast is sent does not panic.
  panicked-IsSound :
      (e : Event) (s : System) (m : Member)
      → IsSound s
      → Fits m.waiting s m.mailbox
      → next e s ≡ panic
      → IsSoundMember (handled panic m)
  panicked-IsSound e s m sound fits panics =
      let same = step-over build_uri spawn signal_name e s in
      ground (arith, sound, same, panics, fits)

  moved-IsSound :
      (s t : System) (m : Member)
      → IsSound t
      → (s.actor.stopped_tx ≡ none → t.actor.stopped_tx ≡ none)
      → Fits m.waiting s m.mailbox
      → IsSoundMember (handled (ok t) m)
  moved-IsSound s t m sound stays fits = ground (arith, sound, stays)

  own-IsSound :
      (e : Event) (s : System) (m : Member)
      → IsSound s
      → Fits m.waiting s m.mailbox
      → IsSoundMember (handled (next e s) m)
  own-IsSound e s m sound fits = elim (Outcome-cases (next e s)) [
    | inl panics ↦ rw (panics) (panicked-IsSound e s m sound fits panics)
    | inr (t, moved) ↦ rw (moved) (
        moved-IsSound s t m (step-IsSound build_uri spawn signal_name e s t sound moved)
          (λ gone. step-stopped_tx e s t sound gone moved) fits)
  ]

  -- The handling of a `Wait` of the supervisor.
  wait-IsSound :
      (s : System) (m : Member)
      → IsSound s
      → IsSoundMember
          (handled (next wait_msg s) (record m { waiting = received wait_msg s m.waiting }))
  unfolding handle_wait step
  wait-IsSound s m sound =
      (step-IsSound build_uri spawn signal_name wait_msg s _ sound refl, ground arith)

  first-IsSound :
      (mailbox : List Event) (s : System) (m : Member)
      → IsSound s
      → Fits m.waiting s mailbox
      → m.system ≡ some s
      → m.mailbox ≡ mailbox
      → IsSoundMember (do_first build_uri spawn signal_name mailbox s m)
  unfolding do_first
  first-IsSound [] s m sound fits here box = ground (arith, sound)
  first-IsSound (wait_msg ∷ rest) s m sound fits here box =
      wait-IsSound s (record m { mailbox = rest }) sound
  first-IsSound (terminate_msg ∷ rest) s m sound fits here box =
      own-IsSound terminate_msg s (record m { mailbox = rest }) sound (ground (arith, fits))
  first-IsSound (e ∷ rest) s m sound fits here box =
      own-IsSound e s (record m { mailbox = rest }) sound (ground (arith, fits))

  do_some-IsSound :
      (doing : Doing) (s : System) (mailbox : List Event) (waiting : Waiting)
      → IsSound s × Fits waiting s mailbox
      → IsSoundMember (
          do_at build_uri spawn signal_name doing
            (record { system = some s; mailbox = mailbox; waiting = waiting }))
  unfolding do_at
  do_some-IsSound deliver s mailbox waiting (sound, fits) =
      first-IsSound mailbox s _ sound fits refl refl
  do_some-IsSound (own e) s mailbox waiting (sound, fits) = own-IsSound e s _ sound fits

  -- What happens at a caretaker happens at its state, if it lives.
  pub do_at-cases :
      (P : Member → Type 0) (doing : Doing) (m : Member)
      → (m.system ≡ none → P m)
      → ((s : System)
          → m.system ≡ some s
          → P (do_at build_uri spawn signal_name doing (record m { system = some s })))
      → P (do_at build_uri spawn signal_name doing m)
  unfolding do_at
  do_at-cases P doing m gone lives = elim (Option-cases m.system) [
    | inl none_left ↦
        let there : m ≡ record m { system = none } = λ i. record m { system = none_left i } in
        subst (λ n. P (do_at build_uri spawn signal_name doing n)) (sym there)
          (subst P there (gone none_left))
    | inr (s, here) ↦
        let there : m ≡ record m { system = some s } = λ i. record m { system = here i } in
        subst (λ n. P (do_at build_uri spawn signal_name doing n)) (sym there) (lives s here)
  ]

  pub do_at-IsSound :
      (doing : Doing) (m : Member)
      → IsSoundMember m
      → IsSoundMember (do_at build_uri spawn signal_name doing m)
  do_at-IsSound doing m h =
      do_at-cases IsSoundMember doing m (λ _. h)
        (λ s here. do_some-IsSound doing s m.mailbox m.waiting (rw (here) at h))

  pub do_nth-Each :
      (P : Member → Type 0) (place : ℕ) (doing : Doing) (actors : List (Str × Member))
      → ((m : Member) → P m → P (do_at build_uri spawn signal_name doing m))
      → Each P actors
      → Each P (do_nth build_uri spawn signal_name place doing actors)
  unfolding do_nth
  do_nth-Each P place doing [] does h = tt
  do_nth-Each P zero doing (a ∷ actors) does (p, h) = (does a.1 p, h)
  do_nth-Each P (suc place) doing (a ∷ actors) does (p, h) =
      (p, do_nth-Each P place doing actors does h)

  -- What holds of each caretaker at the start, and is kept by posting and by what happens at it,
  -- holds of each in every world.
  module _ (P : Member → Type 0) (posts_wait : (m : Member) → P m → P (post wait_msg m))
      (posts_terminate : (m : Member) → P m → P (post terminate_msg m))
      (does : (doing : Doing) (m : Member)
        → P m
        → P (do_at build_uri spawn signal_name doing m)) where
    happen-Each :
        (h : Happening) (w : World)
        → Each P w.supervisor.actors
        → Each P (happen build_uri spawn signal_name h w).supervisor.actors
    unfolding happen handle_join handle_terminate_all
    happen-Each join w h = ground (arith, post_all-Each P P wait_msg w.supervisor.actors posts_wait)
    happen-Each terminate_all w h =
        post_all-Each P P terminate_msg w.supervisor.actors posts_terminate h
    happen-Each (at place doing) w h = do_nth-Each P place doing w.supervisor.actors (does doing) h

    start-Each :
        (make : Str → Program → Member) (programs : List (Str × Program))
        → ((name : Str) (program : Program) → P (make name program))
        → Each P (start make programs).actors
    unfolding start
    start-Each make [] begun = tt
    start-Each make (p ∷ programs) begun = (begun p.0 p.1, start-Each make programs begun)

    pub Reach-Each :
        (stop_rx : Str → Receiver) (programs : List (Str × Program)) (w : World)
        → ((name : Str) (program : Program)
            → P (begin_member build_uri spawn signal_name stop_rx name program))
        → Reach build_uri spawn signal_name stop_rx programs w
        → Each P w.supervisor.actors
    unfolding begin
    Reach-Each stop_rx programs w begun begins = start-Each _ programs begun
    Reach-Each stop_rx programs w begun (goes_on {w = v} h r) =
        happen-Each h v (Reach-Each stop_rx programs v begun r)

  -- In every world each caretaker that lives is sound, and how far its `Wait` is fits it; one that
  -- panicked has no `Wait` that is still waited for.
  pub Reach-IsSound :
      (stop_rx : Str → Receiver) (programs : List (Str × Program)) (w : World)
      → Reach build_uri spawn signal_name stop_rx programs w
      → Each IsSoundMember w.supervisor.actors
  unfolding begin_member
  Reach-IsSound stop_rx programs w =
      Reach-Each IsSoundMember (post-IsSound wait_msg) (post-IsSound terminate_msg) do_at-IsSound
        stop_rx programs w (λ name program. (start-IsSound name program (stop_rx name), tt))
