-- ===== src/Supervisor/Fleet/Gone.antt =====
-- A caretaker that panicked before it handled the `Wait` of `Join` (src/supervisor/mod.rs).
use mathlib.Core.List.{Memᴰ}
use blahaj.Prelude.{
  ℕ, zero, suc, List, [], ◌∷◌, ◌≡◌, ◌≢◌, sym, subst, ◌⊎◌, inl, inr, true, Option, none, All, map,
  arith,
}
use blahaj.Prelude.Text.{Str}
use blahaj.Config.{Program}
use blahaj.Proxy.{Scheme}
use blahaj.Supervisor.Futs.{ready}
use blahaj.Supervisor.Caretaker.{Command}
use blahaj.Supervisor.Caretaker.Run.{Receiver, Spawned}
use blahaj.Supervisor.Caretaker.System.{Event, wait_msg, terminate_msg}
use blahaj.Supervisor.Fleet.{Polling, join_answer, handle_join, handle_terminate_all}
use blahaj.Supervisor.Fleet.World.{
  answered, Member, post, post_all, Doing, World, Happening, join, terminate_all, at, wait_reply,
  do_at, do_nth, happen, happen_all, Reach,
}
use blahaj.Supervisor.Fleet.Members.{IsSoundMember, Reach-IsSound}
use blahaj.Supervisor.Fleet.Sent.{IsSent, Reach-IsSent, Reach-happen_all}

-- It panicked, and its `Wait` is not answered.
abbrev pub IsGone : Member → Type 0
IsGone m = (m.system ≡ none) × (m.waiting ≢ answered)

abbrev AnyGone : List (Str × Member) → Type 0
AnyGone [] = ⊥
AnyGone (a ∷ actors) = IsGone a.1 ⊎ AnyGone actors

mem-AnyGone :
    (name : Str) (m : Member) (actors : List (Str × Member))
    → Memᴰ (name, m) actors
    → IsGone m
    → AnyGone actors
mem-AnyGone name m [] r gone = elim r [ ]
mem-AnyGone name m (a ∷ actors) (Memᴰ.head e) gone = inl (subst (λ b. IsGone b.1) e gone)
mem-AnyGone name m (a ∷ actors) (Memᴰ.tail r) gone = inr (mem-AnyGone name m actors r gone)

post-IsGone : (e : Event) (m : Member) → IsGone m → IsGone (post e m)
unfolding post
post-IsGone e m gone = ground (arith, gone)

post_all-AnyGone :
    (message : Event) (actors : List (Str × Member))
    → AnyGone actors
    → AnyGone (post_all actors (map (λ a. (a.1, message)) actors))
unfolding post_all
post_all-AnyGone message [] any = elim any [ ]
post_all-AnyGone message (a ∷ actors) (inl gone) = inl (post-IsGone message a.1 gone)
post_all-AnyGone message (a ∷ actors) (inr any) = inr (post_all-AnyGone message actors any)

-- One that is gone and has its `Wait` refuses it.
reply-IsGone :
    {Error : Type 0} (closed : Error) (m : Member)
    → IsSoundMember m
    → IsSent m
    → IsGone m
    → wait_reply closed m ≡ ready (inl closed)
reply-IsGone closed m sound sent gone = ground (arith, sound, sent, gone)

replies-AnyGone :
    {Error : Type 0} (closed : Error) (actors : List (Str × Member))
    → All (λ a. IsSoundMember a.1) actors
    → All (λ a. IsSent a.1) actors
    → AnyGone actors
    → Memᴰ (ready (inl closed)) (map (λ a. wait_reply closed a.1) actors)
replies-AnyGone closed [] sound sent any = elim any [ ]
replies-AnyGone closed (a ∷ actors) (s, sound) (u, sent) (inl gone) =
    Memᴰ.head (sym (reply-IsGone closed a.1 s u gone))
replies-AnyGone closed (a ∷ actors) (s, sound) (u, sent) (inr any) =
    Memᴰ.tail (replies-AnyGone closed actors sound sent any)

module _ (build_uri : Scheme → Str → Str → Option Str) (spawn : Command → Spawned)
    (signal_name : ℕ → Option Str) where
  do_at-IsGone :
      (doing : Doing) (m : Member) → IsGone m → IsGone (do_at build_uri spawn signal_name doing m)
  unfolding do_at
  do_at-IsGone doing m gone = ground (arith, gone)

  do_nth-AnyGone :
      (place : ℕ) (doing : Doing) (actors : List (Str × Member))
      → AnyGone actors
      → AnyGone (do_nth build_uri spawn signal_name place doing actors)
  unfolding do_nth
  do_nth-AnyGone zero doing [] any = elim any [ ]
  do_nth-AnyGone (suc place) doing [] any = elim any [ ]
  do_nth-AnyGone zero doing (a ∷ actors) (inl gone) = inl (do_at-IsGone doing a.1 gone)
  do_nth-AnyGone zero doing (a ∷ actors) (inr any) = inr any
  do_nth-AnyGone (suc place) doing (a ∷ actors) (inl gone) = inl gone
  do_nth-AnyGone (suc place) doing (a ∷ actors) (inr any) =
      inr (do_nth-AnyGone place doing actors any)

  happen-AnyGone :
      (h : Happening) (w : World)
      → AnyGone w.supervisor.actors
      → AnyGone (happen build_uri spawn signal_name h w).supervisor.actors
  unfolding happen handle_join handle_terminate_all
  happen-AnyGone join w any = ground (arith, any, post_all-AnyGone wait_msg w.supervisor.actors any)
  happen-AnyGone terminate_all w any = post_all-AnyGone terminate_msg w.supervisor.actors any
  happen-AnyGone (at place doing) w any = do_nth-AnyGone place doing w.supervisor.actors any

  happen_all-AnyGone :
      (later : List Happening) (w : World)
      → AnyGone w.supervisor.actors
      → AnyGone (happen_all build_uri spawn signal_name later w).supervisor.actors
  unfolding happen_all
  happen_all-AnyGone [] w any = any
  happen_all-AnyGone (h ∷ later) w any = happen_all-AnyGone later _ (happen-AnyGone h w any)

  -- Once `Join` was handled, it is answered if a caretaker panicked before it handled its `Wait`.
  pub joined_early :
      (stop_rx : Str → Receiver) (programs : List (Str × Program)) {Error : Type 0} (closed : Error)
      (polling : Polling Error) (w : World) (name : Str) (m : Member) (later : List Happening)
      → Reach build_uri spawn signal_name stop_rx programs w
      → Memᴰ (name, m) w.supervisor.actors
      → IsGone m
      → (happen_all build_uri spawn signal_name later w).joined ≡ true
      → join_answer polling
          (wait_reply closed)
          (happen_all build_uri spawn signal_name later w).supervisor
        ≡ ready tt
  unfolding join_answer
  joined_early stop_rx programs closed polling w name m later reach r gone joined =
      let v = happen_all build_uri spawn signal_name later w in
      let there = Reach-happen_all build_uri spawn signal_name stop_rx programs later w reach in
      let (first, refuses) = polling.one_refused _ closed (
        replies-AnyGone closed v.supervisor.actors
          (Reach-IsSound build_uri spawn signal_name stop_rx programs v there)
          (Reach-IsSent build_uri spawn signal_name stop_rx programs v there joined)
          (happen_all-AnyGone later w (mem-AnyGone name m w.supervisor.actors r gone))) in
      ground (arith, refuses)
