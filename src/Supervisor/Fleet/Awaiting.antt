-- ===== src/Supervisor/Fleet/Awaiting.antt =====
-- What a caretaker that has handled its `Wait` keeps for it (src/supervisor/caretaker.rs).
use blahaj.Prelude.{
  ℕ, List, [], ◌∷◌, ◌≡◌, ◌≢◌, refl, sym, subst, inl, inr, Option, none, some, Outcome, ok,
  Outcome-cases, arith,
}
use blahaj.Prelude.Text.{Str}
use blahaj.Config.{Program}
use blahaj.Proxy.{Scheme}
use blahaj.Supervisor.Futs.{new_repeated, new_abort, poll_repeated, poll_abort}
use blahaj.Supervisor.Caretaker.{
  new, started, Command, handle_terminate, handle_wait, handle_set_health_state, broadcast_stopped,
}
use blahaj.Supervisor.Caretaker.Run.{
  Receiver, Spawned, after_watch, conclude, finish_run, one_round, daemon_future, finish_daemon,
  begin_run,
}
use blahaj.Supervisor.Caretaker.System
use blahaj.Supervisor.Caretaker.System.{System, Event, terminate_msg, wait_msg, step}
use blahaj.Supervisor.Caretaker.Panics.{IsTimed, step-IsTimed, start-IsTimed}
use blahaj.Supervisor.Fleet.World.{
  Waiting, subscribed, Member, post, handled, received, Doing, deliver, own, World, do_first, do_at,
  begin_member, Reach,
}
use blahaj.Supervisor.Fleet.Members.{Each, do_at-cases, Reach-Each}

-- A `Wait` that waits for the broadcast has a receiver of it, and the guard counts in the window of
-- the program.
abbrev pub HeardSystem : Option System → Waiting → Type 0
HeardSystem none waiting = Unit
HeardSystem (some s) waiting =
    IsTimed s.actor.program s × (waiting ≡ subscribed → s.actor.stopped_tx ≢ some 0)

abbrev pub IsHeard : Member → Type 0
IsHeard m = HeardSystem m.system m.waiting

pub post-IsHeard : (e : Event) (m : Member) → IsHeard m → IsHeard (post e m)
unfolding post
post-IsHeard e m h = ground arith

module _ (build_uri : Scheme → Str → Str → Option Str) (spawn : Command → Spawned)
    (signal_name : ℕ → Option Str) where
  abbrev next : Event → System → Outcome System
  next = step build_uri spawn signal_name

  step-receivers :
      (e : Event) (s t : System)
      → s.actor.stopped_tx ≢ some 0
      → next e s ≡ ok t
      → t.actor.stopped_tx ≢ some 0
  unfolding step handle_terminate handle_wait handle_set_health_state daemon_future new_repeated
      poll_repeated one_round finish_daemon broadcast_stopped begin_run new_abort poll_abort
      after_watch conclude finish_run
  step-receivers terminate_msg s t some_left e = ground arith
  step-receivers _ s t some_left e = ground arith

  pub keeps-IsTimed :
      (e : Event) (s t : System)
      → IsTimed s.actor.program s
      → next e s ≡ ok t
      → IsTimed t.actor.program t
  keeps-IsTimed e s t timed moved =
      let after = step-IsTimed build_uri spawn signal_name s.actor.program e s t timed moved in
      subst (λ program. IsTimed program t) (sym after.same_program) after

  handled-IsHeard :
      (e : Event) (s : System) (m : Member)
      → IsTimed s.actor.program s
      → (m.waiting ≡ subscribed → s.actor.stopped_tx ≢ some 0)
      → IsHeard (handled (next e s) m)
  handled-IsHeard e s m timed listens = elim (Outcome-cases (next e s)) [
    | inl panics ↦ rw (panics) tt
    | inr (t, moved) ↦
        let after = keeps-IsTimed e s t timed moved in
        let stays = step-receivers e s t in
        rw (moved) (after, ground (arith, listens, stays, moved))
  ]

  wait-IsHeard :
      (s : System) (m : Member)
      → IsTimed s.actor.program s
      → IsHeard (handled (next wait_msg s) (record m { waiting = received wait_msg s m.waiting }))
  unfolding handle_wait step
  wait-IsHeard s m timed = (keeps-IsTimed wait_msg s _ timed refl, ground arith)

  first-IsHeard :
      (mailbox : List Event) (s : System) (m : Member)
      → HeardSystem (some s) m.waiting
      → m.system ≡ some s
      → IsHeard (do_first build_uri spawn signal_name mailbox s m)
  unfolding do_first
  first-IsHeard [] s m h here = rw (here) h
  first-IsHeard (wait_msg ∷ rest) s m h here = wait-IsHeard s (record m { mailbox = rest }) h.0
  first-IsHeard (e ∷ rest) s m h here = handled-IsHeard e s _ h.0 h.1

  do_some-IsHeard :
      (doing : Doing) (s : System) (mailbox : List Event) (waiting : Waiting)
      → HeardSystem (some s) waiting
      → IsHeard (
          do_at build_uri spawn signal_name doing
            (record { system = some s; mailbox = mailbox; waiting = waiting }))
  unfolding do_at
  do_some-IsHeard deliver s mailbox waiting h = first-IsHeard mailbox s _ h refl
  do_some-IsHeard (own e) s mailbox waiting h = handled-IsHeard e s _ h.0 h.1

  pub do_at-IsHeard :
      (doing : Doing) (m : Member) → IsHeard m → IsHeard (do_at build_uri spawn signal_name doing m)
  do_at-IsHeard doing m h =
      do_at-cases build_uri spawn signal_name IsHeard doing m (λ _. h)
        (λ s here. do_some-IsHeard doing s m.mailbox m.waiting (rw (here) at h))

  begin-IsHeard :
      (stop_rx : Str → Receiver) (name : Str) (program : Program)
      → IsHeard (begin_member build_uri spawn signal_name stop_rx name program)
  unfolding begin_member System.start started new
  begin-IsHeard stop_rx name program = (
    start-IsTimed build_uri spawn signal_name program name (stop_rx name),
    λ e. ground (arith, e),
  )

  -- In every world a `Wait` that waits for the broadcast has a receiver of it.
  pub Reach-IsHeard :
      (stop_rx : Str → Receiver) (programs : List (Str × Program)) (w : World)
      → Reach build_uri spawn signal_name stop_rx programs w
      → Each IsHeard w.supervisor.actors
  Reach-IsHeard stop_rx programs w =
      Reach-Each build_uri spawn signal_name IsHeard (post-IsHeard wait_msg)
        (post-IsHeard terminate_msg) do_at-IsHeard stop_rx programs w (begin-IsHeard stop_rx)
