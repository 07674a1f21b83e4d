-- ===== src/Supervisor/Fleet/Progress.antt =====
-- The supervisor's caretakers (src/supervisor/mod.rs) that handle their messages and go on by
-- themselves after `Join` and `TerminateAll`.
use blahaj.Prelude.{ℕ, zero, suc, List, [], ◌∷◌, ◌≡◌, refl, true, Option, All, map}
use blahaj.Prelude.Text.{Str}
use blahaj.Config.{Program}
use blahaj.Proxy.{Scheme}
use blahaj.Supervisor.Caretaker.{Command}
use blahaj.Supervisor.Caretaker.Run.{Receiver, Spawned}
use blahaj.Supervisor.Fleet.World.{
  Member, Doing, World, Happening, at, do_nth, happen, happen_all, Reach,
}
use blahaj.Supervisor.Fleet.Members.{IsSoundMember, Reach-IsSound}
use blahaj.Supervisor.Fleet.Sent.{IsSent, IsTold, Reach-IsSent, Reach-IsTold}
use blahaj.Supervisor.Fleet.Awaiting.{IsHeard, Reach-IsHeard}
use blahaj.Supervisor.Fleet.Mail.{IsPosted, Reach-IsPosted}
use blahaj.Supervisor.Fleet.Shutdown.{IsOver, IsHandled}
use blahaj.Supervisor.Fleet.Stopping.{
  FairSystem, IsSettled, IsAble, IsStopping, do_list, do_list-IsSettled,
}

-- What happens at the caretakers: each at a place of the list.
abbrev pub Doings : Type 0
Doings = List (ℕ × Doing)

abbrev pub happenings : Doings → List Happening
happenings = map (λ d. at d.0 d.1)

-- What happens at the first caretaker, and what happens at the others, by their places among these.
abbrev pub at_first : Doings → List Doing
at_first [] = []
at_first ((zero, d) ∷ doings) = d ∷ at_first doings
at_first ((suc place, d) ∷ doings) = at_first doings

abbrev pub at_others : Doings → Doings
at_others [] = []
at_others ((zero, d) ∷ doings) = at_others doings
at_others ((suc place, d) ∷ doings) = (place, d) ∷ at_others doings

-- Each caretaker that lives handles its messages and then goes on, fairly.
abbrev pub IsFair : Doings → List (Str × Member) → Type 0
IsFair doings [] = Unit
IsFair doings (a ∷ actors) =
    FairSystem (at_first doings) a.1.mailbox a.1.system × IsFair (at_others doings) actors

module _ (build_uri : Scheme → Str → Str → Option Str) (spawn : Command → Spawned)
    (signal_name : ℕ → Option Str) where
  abbrev do_all : Doings → List (Str × Member) → List (Str × Member)
  do_all [] actors = actors
  do_all (d ∷ doings) actors = do_all doings (do_nth build_uri spawn signal_name d.0 d.1 actors)

  do_all-nil : (doings : Doings) → do_all doings [] ≡ []
  unfolding do_nth
  do_all-nil [] = refl
  do_all-nil (d ∷ doings) = do_all-nil doings

  do_all-cons :
      (doings : Doings) (a : Str × Member) (actors : List (Str × Member))
      → do_all doings (a ∷ actors)
        ≡ (a.0, do_list build_uri spawn signal_name (at_first doings) a.1)
          ∷ do_all (at_others doings) actors
  unfolding do_nth
  do_all-cons [] a actors = refl
  do_all-cons ((zero, d) ∷ doings) a actors = do_all-cons doings _ actors
  do_all-cons ((suc place, d) ∷ doings) a actors = do_all-cons doings a _

  happen_all-do_all :
      (doings : Doings) (w : World)
      → (happen_all build_uri spawn signal_name (happenings doings) w).supervisor.actors
        ≡ do_all doings w.supervisor.actors
  unfolding happen_all happen
  happen_all-do_all [] w = refl
  happen_all-do_all (d ∷ doings) w = happen_all-do_all doings _

  do_all-IsSettled :
      (doings : Doings) (actors : List (Str × Member))
      → All (λ a. IsStopping build_uri spawn signal_name a.1) actors
      → IsFair doings actors
      → All (λ a. IsSettled a.1) (do_all doings actors)
  do_all-IsSettled doings [] known fair = rw (do_all-nil doings) tt
  do_all-IsSettled doings (a ∷ actors) (k, known) (f, fair) = rw (do_all-cons doings a actors) (
    do_list-IsSettled build_uri spawn signal_name (at_first doings) a.1 k f,
    do_all-IsSettled (at_others doings) actors known fair,
  )

  join-IsStopping :
      (actors : List (Str × Member))
      → All (λ a. IsSoundMember a.1) actors
      → All (λ a. IsTold a.1) actors
      → All (λ a. IsHeard a.1) actors
      → All (λ a. IsSent a.1) actors
      → All (λ a. IsPosted a.1) actors
      → All (λ a. IsAble build_uri spawn signal_name a.1) actors
      → All (λ a. IsStopping build_uri spawn signal_name a.1) actors
  join-IsStopping [] sound told heard sent posted able = tt
  join-IsStopping (a ∷ actors) (s, sound) (o, told) (h, heard) (t, sent) (p, posted) (b, able) = (
    record { sound = s; told = o; heard = h; sent = t; posted = p; able = b },
    join-IsStopping actors sound told heard sent posted able,
  )

  settled-split :
      (actors : List (Str × Member))
      → All (λ a. IsSettled a.1) actors
      → All (λ a. IsOver a.1) actors × All (λ a. IsHandled a.1) actors
  settled-split [] h = (tt, tt)
  settled-split (a ∷ actors) ((done, taken), h) =
      let rest = settled-split actors h in ((done, rest.0), (taken, rest.1))

  -- Once `Join` and `TerminateAll` were handled, and each caretaker lives and has a program that can
  -- be spawned: after the caretakers have handled their messages and gone on fairly, in whatever
  -- order among them, every daemon is done and no message is left.
  pub fair_ends :
      (stop_rx : Str → Receiver) (programs : List (Str × Program)) (w : World) (doings : Doings)
      → Reach build_uri spawn signal_name stop_rx programs w
      → w.joined ≡ true
      → w.terminated ≡ true
      → All (λ a. IsAble build_uri spawn signal_name a.1) w.supervisor.actors
      → IsFair doings w.supervisor.actors
      → All
          (λ a. IsOver a.1)
          (happen_all build_uri spawn signal_name (happenings doings) w).supervisor.actors
        × All
            (λ a. IsHandled a.1)
            (happen_all build_uri spawn signal_name (happenings doings) w).supervisor.actors
  fair_ends stop_rx programs w doings reach joined terminated able fair =
      let known =
        join-IsStopping w.supervisor.actors
          (Reach-IsSound build_uri spawn signal_name stop_rx programs w reach)
          (Reach-IsTold build_uri spawn signal_name stop_rx programs w reach terminated)
          (Reach-IsHeard build_uri spawn signal_name stop_rx programs w reach)
          (Reach-IsSent build_uri spawn signal_name stop_rx programs w reach joined)
          (Reach-IsPosted build_uri spawn signal_name stop_rx programs w reach) able in
      rw (happen_all-do_all doings w) (
        settled-split (do_all doings w.supervisor.actors)
          (do_all-IsSettled doings w.supervisor.actors known fair))
