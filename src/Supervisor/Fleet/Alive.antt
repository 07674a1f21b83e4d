-- ===== src/Supervisor/Fleet/Alive.antt =====
-- The caretakers of the supervisor (src/supervisor/mod.rs) that have handled the `Wait` of `Join`:
-- they stay alive.
use blahaj.Prelude.{
  ℕ, ◌≤◌, List, [], ◌∷◌, ◌≡◌, ◌≢◌, refl, subst, ◌⊎◌, inl, inr, true, Option, none, some, Outcome,
  Ensures, Outcome-cases, All, arith,
}
use blahaj.Prelude.Text.{Str}
use blahaj.Config.{Program}
use blahaj.Proxy.{Scheme}
use blahaj.Supervisor.Caretaker.{Command}
use blahaj.Supervisor.Caretaker.Run.{Receiver, Spawned}
use blahaj.Supervisor.Caretaker.System.{System, Event, poll_daemon, poll_watch, terminate_msg, step}
use blahaj.Supervisor.Caretaker.Invariant.{IsSound}
use blahaj.Supervisor.Caretaker.Panics.{
  IsLegal, IsRegular, IsWaited, IsTimed, IsAwaited, step-IsTimed, step-IsAwaited,
}
use blahaj.Supervisor.Fleet.{handle_terminate_all}
use blahaj.Supervisor.Fleet.World.{
  Waiting, subscribed, answered, Member, post, handled, received, Doing, deliver, own, World,
  Happening, join, terminate_all, at, do_first, do_at, happen, happen_all, Reach,
}
use blahaj.Supervisor.Fleet.Members.{
  Each, IsSoundMember, post-IsSound, do_at-IsSound, do_at-cases, post_all-Each, do_nth-Each,
  Reach-IsSound,
}
use blahaj.Supervisor.Fleet.Shutdown.{IsAlive, IsTaken}
use blahaj.Supervisor.Fleet.Awaiting.{IsHeard, post-IsHeard, do_at-IsHeard, Reach-IsHeard}
use blahaj.Supervisor.Fleet.Mail.{
  IsMessage, IsPosted, post-IsPosted, do_at-IsPosted, Reach-IsPosted,
}

-- The surroundings do what they can be relied on to do: the clock reads no time below `early`, and a
-- child ends with a status word.
abbrev pub IsCalmEvent : ℕ → Event → Type 0
IsCalmEvent early (poll_daemon now slept) = early ≤ now
IsCalmEvent early (poll_watch unhealthy wait) = IsWaited wait
IsCalmEvent early _ = Unit

abbrev pub IsCalm : ℕ → Happening → Type 0
IsCalm early (at place (own e)) = IsCalmEvent early e
IsCalm early _ = Unit

-- The `Wait` was handled.
abbrev pub IsServed : Waiting → Type 0
IsServed waiting = (waiting ≡ subscribed) ⊎ (waiting ≡ answered)

calm-IsRegular :
    (early : ℕ) (e : Event) (program : Program)
    → program.retry.window ≤ early
    → IsCalmEvent early e
    → IsRegular program e
calm-IsRegular early (poll_daemon now slept) program le calm = omega arith
calm-IsRegular early (poll_watch unhealthy wait) program le calm = calm
calm-IsRegular early _ program le calm = tt

message-IsCalm : (early : ℕ) (e : Event) → IsMessage e → IsCalmEvent early e
message-IsCalm early e is = ground (arith, is)

module _ (build_uri : Scheme → Str → Str → Option Str) (spawn : Command → Spawned)
    (signal_name : ℕ → Option Str) (early : ℕ) where
  abbrev next : Event → System → Outcome System
  next = step build_uri spawn signal_name

  -- A caretaker that lives and has handled its `Wait`, whose program's health check has a Uri and
  -- whose program's window is not longer than `early`.
  abbrev pub SteadySystem : Option System → Type 0
  SteadySystem none = ⊥
  SteadySystem (some s) =
      IsLegal build_uri spawn signal_name s.actor.program × (s.actor.program.retry.window ≤ early)

  abbrev pub IsSteady : Member → Type 0
  IsSteady m = SteadySystem m.system × IsServed m.waiting

  pub record IsKept (m : Member) : Type 0 where
    pub sound : IsSoundMember m
    pub heard : IsHeard m
    pub posted : IsPosted m
    pub steady : IsSteady m

  handled-IsSteady :
      (e : Event) (s : System) (m : Member)
      → IsSound s
      → IsTimed s.actor.program s
      → s.actor.stopped_tx ≢ some 0
      → SteadySystem (some s)
      → IsCalmEvent early e
      → IsServed m.waiting
      → IsSteady (handled (next e s) m)
  handled-IsSteady e s m sound timed receivers (legal, le) calm served =
      let program = s.actor.program in
      elim (Outcome-cases (next e s)) [
        | inl panics ↦ absurd (
            subst (Ensures (IsAwaited build_uri spawn signal_name program)) panics (
              step-IsAwaited build_uri spawn signal_name program legal e s sound
                (record { timed = timed; awaited = receivers })
                (calm-IsRegular early e program le calm)))
        | inr (t, moved) ↦
            let same = step-IsTimed build_uri spawn signal_name program e s t timed moved in
            rw (moved) (rw (same.same_program) (legal, le), ground (arith, served))
      ]

  -- The broadcast of a caretaker that has handled its `Wait` has a receiver, or was sent.
  has_receivers :
      (s : System) (mailbox : List Event) (waiting : Waiting)
      → IsKept (record { system = some s; mailbox = mailbox; waiting = waiting })
      → s.actor.stopped_tx ≢ some 0
  has_receivers s mailbox waiting kept =
      let fits = kept.sound.1 in
      let served = kept.steady.1 in
      let listens = kept.heard.1 in ground (arith, fits, served, listens)

  received-IsServed :
      (e : Event) (s : System) (waiting : Waiting)
      → IsServed waiting
      → IsServed (received e s waiting)
  received-IsServed e s waiting served = ground (arith, served)

  do_some-IsSteady :
      (place : ℕ) (doing : Doing) (s : System) (mailbox : List Event) (waiting : Waiting)
      → IsCalm early (at place doing)
      → IsKept (record { system = some s; mailbox = mailbox; waiting = waiting })
      → IsSteady (
          do_at build_uri spawn signal_name doing
            (record { system = some s; mailbox = mailbox; waiting = waiting }))
  unfolding do_at do_first
  do_some-IsSteady place (own e) s mailbox waiting calm kept =
      handled-IsSteady e s _ kept.sound.0 kept.heard.0 (has_receivers s mailbox waiting kept)
        kept.steady.0 calm kept.steady.1
  do_some-IsSteady place deliver s [] waiting calm kept = kept.steady
  do_some-IsSteady place deliver s (e ∷ mailbox) waiting calm kept =
      handled-IsSteady e s _ kept.sound.0 kept.heard.0 (has_receivers s (e ∷ mailbox) waiting kept)
        kept.steady.0 (message-IsCalm early e kept.posted.0)
        (received-IsServed e s waiting kept.steady.1)

  do_at-IsKept :
      (place : ℕ) (doing : Doing)
      → IsCalm early (at place doing)
      → (m : Member) → IsKept m
      → IsKept (do_at build_uri spawn signal_name doing m)
  do_at-IsKept place doing calm m kept = record {
    sound = do_at-IsSound build_uri spawn signal_name doing m kept.sound;
    heard = do_at-IsHeard build_uri spawn signal_name doing m kept.heard;
    posted = do_at-IsPosted build_uri spawn signal_name doing m kept.posted;
    steady =
        do_at-cases build_uri spawn signal_name IsSteady doing m
          (λ gone. absurd (rw (gone) at kept.steady.0))
          (λ s here.
            do_some-IsSteady place doing s m.mailbox m.waiting calm
              (subst IsKept (λ i. record m { system = here i }) kept));
  }

  post-IsKept : (m : Member) → IsKept m → IsKept (post terminate_msg m)
  unfolding post
  post-IsKept m kept = record {
    sound = post-IsSound terminate_msg m kept.sound;
    heard = post-IsHeard terminate_msg m kept.heard;
    posted = post-IsPosted terminate_msg m (inr refl) kept.posted;
    steady = ground (arith, kept.steady);
  }

  happen-IsKept :
      (h : Happening) (w : World)
      → w.joined ≡ true
      → IsCalm early h
      → Each IsKept w.supervisor.actors
      → ((happen build_uri spawn signal_name h w).joined ≡ true)
        × Each IsKept (happen build_uri spawn signal_name h w).supervisor.actors
  unfolding happen handle_terminate_all
  happen-IsKept join w joined calm kept = ground (arith, kept)
  happen-IsKept terminate_all w joined calm kept =
      (joined, post_all-Each IsKept IsKept terminate_msg w.supervisor.actors post-IsKept kept)
  happen-IsKept (at place doing) w joined calm kept = (
    joined,
    do_nth-Each build_uri spawn signal_name IsKept place doing w.supervisor.actors
        (do_at-IsKept place doing calm) kept,
  )

  happen_all-IsKept :
      (later : List Happening) (w : World)
      → w.joined ≡ true
      → All (IsCalm early) later
      → Each IsKept w.supervisor.actors
      → Each IsKept (happen_all build_uri spawn signal_name later w).supervisor.actors
  unfolding happen_all
  happen_all-IsKept [] w joined calm kept = kept
  happen_all-IsKept (h ∷ later) w joined (c, calm) kept =
      let next_kept = happen-IsKept h w joined c kept in
      happen_all-IsKept later _ next_kept.0 calm next_kept.1

  join-IsKept :
      (actors : List (Str × Member))
      → Each IsSoundMember actors
      → Each IsHeard actors
      → Each IsPosted actors
      → Each IsSteady actors
      → Each IsKept actors
  join-IsKept [] sound heard posted steady = tt
  join-IsKept (a ∷ actors) (s, sound) (h, heard) (p, posted) (y, steady) = (
    record { sound = s; heard = h; posted = p; steady = y },
    join-IsKept actors sound heard posted steady,
  )

  kept-IsSteady : (actors : List (Str × Member)) → Each IsKept actors → Each IsSteady actors
  kept-IsSteady [] kept = tt
  kept-IsSteady (a ∷ actors) (k, kept) = (k.steady, kept-IsSteady actors kept)

  -- Once `Join` was handled and each caretaker has handled its `Wait`, no caretaker panics in what
  -- happens later.
  pub happen_all-IsSteady :
      (stop_rx : Str → Receiver) (programs : List (Str × Program)) (w : World)
      (later : List Happening)
      → Reach build_uri spawn signal_name stop_rx programs w
      → w.joined ≡ true
      → Each IsSteady w.supervisor.actors
      → All (IsCalm early) later
      → Each IsSteady (happen_all build_uri spawn signal_name later w).supervisor.actors
  happen_all-IsSteady stop_rx programs w later reach joined steady calm = kept-IsSteady _ (
      happen_all-IsKept later w joined calm (
        join-IsKept w.supervisor.actors
          (Reach-IsSound build_uri spawn signal_name stop_rx programs w reach)
          (Reach-IsHeard build_uri spawn signal_name stop_rx programs w reach)
          (Reach-IsPosted build_uri spawn signal_name stop_rx programs w reach) steady))

  pub steady-IsAlive :
      (actors : List (Str × Member)) → Each IsSteady actors → All (λ a. IsAlive a.1) actors
  steady-IsAlive [] steady = tt
  steady-IsAlive (a ∷ actors) (s, steady) = (ground (arith, s), steady-IsAlive actors steady)

  pub steady-IsTaken :
      (actors : List (Str × Member)) → Each IsSteady actors → All (λ a. IsTaken a.1) actors
  steady-IsTaken [] steady = tt
  steady-IsTaken (a ∷ actors) (s, steady) =
      (((λ e. ground (arith, s.1, e)), λ e. ground (arith, s.1, e)), steady-IsTaken actors steady)
