-- ===== src/Supervisor/Fleet/Shutdown.antt =====
-- When `Join` is answered (src/supervisor/mod.rs), upon which `main` (src/main.rs) stops the server.
use mathlib.Core.List.{Memᴰ}
use blahaj.Prelude.{
  ℕ, List, [], ◌∷◌, ◌≡◌, ◌≢◌, refl, sym, ◌∙◌, ap, ◌⊎◌, inl, inr, true, Option, none, some, is_some,
  All, map, arith,
}
use blahaj.Prelude.Text.{Str}
use blahaj.Config.{Program}
use blahaj.Proxy.{Scheme}
use blahaj.Supervisor.Futs.{Poll, ready, pending}
use blahaj.Supervisor.Caretaker.{Command}
use blahaj.Supervisor.Caretaker.Run.{Receiver, Spawned}
use blahaj.Supervisor.Caretaker.System.{System, over}
use blahaj.Supervisor.Fleet.{Polling, join_answer}
use blahaj.Supervisor.Fleet.World.{unsent, queued, Member, World, wait_reply, Reach}
use blahaj.Supervisor.Fleet.Members.{IsSoundMember, Reach-IsSound}

-- The daemon of a caretaker that lives is done.
abbrev pub OverSystem : Option System → Type 0
OverSystem none = ⊥
OverSystem (some s) = s.daemon ≡ over

abbrev pub IsOver : Member → Type 0
IsOver m = OverSystem m.system

abbrev pub IsAlive : Member → Type 0
IsAlive m = is_some m.system ≡ true

-- A `Wait` that was sent and handled.
abbrev pub IsHandled : Member → Type 0
IsHandled m = (m.mailbox ≡ []) × (m.waiting ≢ unsent)

-- A `Wait` that was sent, and does not lie in the mailbox.
abbrev pub IsTaken : Member → Type 0
IsTaken m = (m.waiting ≢ unsent) × (m.waiting ≡ queued → m.mailbox ≡ [])

pub handled-IsTaken :
    (actors : List (Str × Member)) → All (λ a. IsHandled a.1) actors → All (λ a. IsTaken a.1) actors
handled-IsTaken [] h = tt
handled-IsTaken (a ∷ actors) ((empty, sent), h) = ((sent, λ _. empty), handled-IsTaken actors h)

module _ {Error : Type 0} (closed : Error) where
  reply-cases :
      (m : Member)
      → IsSoundMember m
      → IsAlive m
      → (IsOver m × (wait_reply closed m ≡ ready (inr tt))) ⊎ (wait_reply closed m ≡ pending)
  reply-cases m sound alive = ground (arith, sound)

  reply-over :
      (m : Member) → IsSoundMember m → IsTaken m → IsOver m → wait_reply closed m ≡ ready (inr tt)
  reply-over m sound taken done = ground (arith, sound)

  abbrev replies : List (Str × Member) → List (Poll (Error ⊎ Unit {0}))
  replies = map (λ a. wait_reply closed a.1)

  -- No caretaker that lives refuses its `Wait`.
  replies-unrefused :
      (actors : List (Str × Member))
      → All (λ a. IsSoundMember a.1) actors
      → All (λ a. IsAlive a.1) actors
      → All (λ r. (e : Error) → r ≢ ready (inl e)) (replies actors)
  replies-unrefused [] sound alive = tt
  replies-unrefused (a ∷ actors) (s, sound) (l, alive) =
      ((λ e refusal. ground (arith, s, l, refusal)), replies-unrefused actors sound alive)

  -- Every daemon is done, or a `Wait` is not answered yet.
  replies-cases :
      (actors : List (Str × Member))
      → All (λ a. IsSoundMember a.1) actors
      → All (λ a. IsAlive a.1) actors
      → All (λ a. IsOver a.1) actors ⊎ Memᴰ pending (replies actors)
  replies-cases [] sound alive = inl tt
  replies-cases (a ∷ actors) (s, sound) (l, alive) = elim (reply-cases a.1 s l) [
    | inr late ↦ inr (Memᴰ.head (sym late))
    | inl (done, _) ↦ elim (replies-cases actors sound alive) [
      | inl all_done ↦ inl (done, all_done)
      | inr m ↦ inr (Memᴰ.tail m)
    ]
  ]

  replies-over :
      (actors : List (Str × Member))
      → All (λ a. IsSoundMember a.1) actors
      → All (λ a. IsTaken a.1) actors
      → All (λ a. IsOver a.1) actors
      → replies actors ≡ map (λ x. ready (inr x)) (map (λ a. tt) actors)
  replies-over [] sound taken done = refl
  replies-over (a ∷ actors) (s, sound) (h, taken) (d, done) =
      rw (reply-over a.1 s h d, replies-over actors sound taken done) refl

module _ (build_uri : Scheme → Str → Str → Option Str) (spawn : Command → Spawned)
    (signal_name : ℕ → Option Str) (stop_rx : Str → Receiver) (programs : List (Str × Program))
    {Error : Type 0} (closed : Error) (polling : Polling Error) where
  -- While no caretaker has panicked, `Join` is answered only once every daemon is done: in whatever
  -- order the caretakers, their messages and a `TerminateAll` come.
  pub joined_last :
      (w : World)
      → Reach build_uri spawn signal_name stop_rx programs w
      → All (λ a. IsAlive a.1) w.supervisor.actors
      → join_answer polling (wait_reply closed) w.supervisor ≡ ready tt
      → All (λ a. IsOver a.1) w.supervisor.actors
  unfolding join_answer
  joined_last w reach alive answer =
      let sound = Reach-IsSound build_uri spawn signal_name stop_rx programs w reach in
      elim (replies-cases closed w.supervisor.actors sound alive) [
        | inl done ↦ done
        | inr late ↦
            let waits =
              polling.one_pending _ late
                (replies-unrefused closed w.supervisor.actors sound alive) in
            ground (arith, waits, answer)
      ]

  -- Once every daemon is done and every caretaker has handled its `Wait`, `Join` is answered.
  pub joined_at_end :
      (w : World)
      → Reach build_uri spawn signal_name stop_rx programs w
      → All (λ a. IsTaken a.1) w.supervisor.actors
      → All (λ a. IsOver a.1) w.supervisor.actors
      → join_answer polling (wait_reply closed) w.supervisor ≡ ready tt
  unfolding join_answer
  joined_at_end w reach taken done =
      let sound = Reach-IsSound build_uri spawn signal_name stop_rx programs w reach in
      let same = replies-over closed w.supervisor.actors sound taken done in
      let all = polling.all_ready (map (λ a. tt) w.supervisor.actors) in
      ground (arith, ap polling.poll_join same ∙ all)
