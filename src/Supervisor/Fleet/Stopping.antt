-- ===== src/Supervisor/Fleet/Stopping.antt =====
-- One caretaker of the supervisor (src/supervisor/mod.rs) that `Join` and `TerminateAll` came to:
-- it handles their messages, and goes on by itself.
use blahaj.Prelude.{
  ℕ, List, [], ◌∷◌, ◌≡◌, ◌≢◌, refl, sym, subst, inl, inr, false, Option, none, some, Outcome, ok,
  panic, ◌>>=◌, Ensures, Option-cases, Outcome-cases, All, arith,
}
use blahaj.Prelude.Text.{Str}
use blahaj.Config.{Program}
use blahaj.Proxy.{Scheme}
use blahaj.Supervisor.Caretaker.{Command, build_command}
use blahaj.Supervisor.Caretaker.Run.{Child, Spawned, spawned}
use blahaj.Supervisor.Caretaker.System.{System, Event, step, run}
use blahaj.Supervisor.Caretaker.Panics.{IsLegal, IsRegular, step-IsTimed}
use blahaj.Supervisor.Caretaker.Terminating.Fairness.{Passes, IsEnded, IsLeaving, run-IsLeaving}
use blahaj.Supervisor.Fleet.World.{
  Waiting, unsent, Member, handled, received, told_stopped, Doing, deliver, own, do_first, do_at,
}
use blahaj.Supervisor.Fleet.Members.{IsSoundMember, do_at-IsSound}
use blahaj.Supervisor.Fleet.Sent.{IsSent, IsTold, do_at-IsSent, do_at-IsTold}
use blahaj.Supervisor.Fleet.Awaiting.{IsHeard, do_at-IsHeard}
use blahaj.Supervisor.Fleet.Mail.{IsPosted, message-no_panic}
use blahaj.Supervisor.Fleet.Shutdown.{IsOver, IsHandled}

-- The events of a caretaker's own.
abbrev pub owns : List Doing → List Event
owns [] = []
owns (deliver ∷ doings) = owns doings
owns (own e ∷ doings) = e ∷ owns doings

-- A caretaker first handles the messages in its mailbox. Then it gets the ten events by which its
-- work goes on, in order and among others, and its surroundings do what they can be relied on to do.
abbrev pub FairDoings : Program → List Event → List Doing → Type 0
FairDoings program [] doings = Passes 0 (owns doings) × All (IsRegular program) (owns doings)
FairDoings program (e ∷ mailbox) [] = ⊥
FairDoings program (e ∷ mailbox) (deliver ∷ doings) = FairDoings program mailbox doings
FairDoings program (e ∷ mailbox) (own x ∷ doings) = ⊥

abbrev pub FairSystem : List Doing → List Event → Option System → Type 0
FairSystem doings mailbox none = Unit
FairSystem doings mailbox (some s) = FairDoings s.actor.program mailbox doings

abbrev pub IsSettled : Member → Type 0
IsSettled m = IsOver m × IsHandled m

module _ (build_uri : Scheme → Str → Str → Option Str) (spawn : Command → Spawned)
    (signal_name : ℕ → Option Str) where
  abbrev next : Event → System → Outcome System
  next = step build_uri spawn signal_name

  -- A caretaker that lives, whose program can be spawned and whose health check has a Uri.
  abbrev pub AbleSystem : Option System → Type 0
  AbleSystem none = ⊥
  AbleSystem (some s) =
      IsLegal build_uri spawn signal_name s.actor.program
      × ((child : Child) × (spawn (build_command s.actor.program) ≡ spawned child))

  abbrev pub IsAble : Member → Type 0
  IsAble m = AbleSystem m.system

  abbrev pub do_list : List Doing → Member → Member
  do_list [] m = m
  do_list (d ∷ doings) m = do_list doings (do_at build_uri spawn signal_name d m)

  -- A caretaker's own events take it where its run goes.
  outcome-IsSettled :
      (doings : List Doing) (o : Outcome System) (waiting : Waiting)
      → waiting ≢ unsent
      → ((t : System) (still : Waiting)
          → still ≢ unsent
          → Ensures IsEnded (run build_uri spawn signal_name (owns doings) t)
          → IsSettled (do_list doings (record { system = some t; mailbox = []; waiting = still })))
      → Ensures IsEnded (do t ← o; run build_uri spawn signal_name (owns doings) t)
      → (s : Option System)
      → IsSettled
          (do_list doings (handled o (record { system = s; mailbox = []; waiting = waiting })))
  outcome-IsSettled doings panic waiting sent later ends s = absurd ends
  outcome-IsSettled doings (ok t) waiting sent later ends s = later t _ (ground arith) ends

  run-IsSettled :
      (doings : List Doing) (s : System) (waiting : Waiting)
      → waiting ≢ unsent
      → Ensures IsEnded (run build_uri spawn signal_name (owns doings) s)
      → IsSettled (do_list doings (record { system = some s; mailbox = []; waiting = waiting }))
  unfolding run do_at do_first
  run-IsSettled [] s waiting sent ends = (ends.0, (refl, sent))
  run-IsSettled (deliver ∷ doings) s waiting sent ends = run-IsSettled doings s waiting sent ends
  run-IsSettled (own e ∷ doings) s waiting sent ends =
      outcome-IsSettled doings (next e s) waiting sent (run-IsSettled doings) ends (some s)

  -- What is known of a caretaker that `Join` and `TerminateAll` came to.
  pub record IsStopping (m : Member) : Type 0 where
    pub sound : IsSoundMember m
    pub told : IsTold m
    pub heard : IsHeard m
    pub sent : IsSent m
    pub posted : IsPosted m
    pub able : IsAble m

  has_receivers :
      (s : System) (waiting : Waiting)
      → IsStopping (record { system = some s; mailbox = []; waiting = waiting })
      → s.actor.stopped_tx ≢ some 0
  has_receivers s waiting known =
      let fits = known.sound.1 in
      let sent = known.sent in let listens = known.heard.1 in ground (arith, fits, sent, listens)

  is_told :
      (s : System) (waiting : Waiting)
      → IsStopping (record { system = some s; mailbox = []; waiting = waiting })
      → s.actor.stop_tx ≡ false
  is_told s waiting known = let told = known.told in ground (arith, told)

  handled-IsSettled :
      (doings : List Doing) (s : System) (waiting : Waiting)
      → IsStopping (record { system = some s; mailbox = []; waiting = waiting })
      → FairDoings s.actor.program [] doings
      → IsSettled (do_list doings (record { system = some s; mailbox = []; waiting = waiting }))
  handled-IsSettled doings s waiting known fair =
      let (legal, (child, spawnable)) = known.able in
      let leaving : IsLeaving build_uri spawn signal_name s.actor.program legal child spawnable 0
          s =
        record {
          sound = known.sound.0;
          awaited = record { timed = known.heard.0; awaited = has_receivers s waiting known };
          stop = is_told s waiting known;
          far = omega arith;
        } in
      run-IsSettled doings s waiting known.sent (
        run-IsLeaving build_uri spawn signal_name s.actor.program legal child spawnable 0
          (owns doings) s fair.0 leaving fair.1)

  -- The caretaker after a message was handled.
  abbrev after_message : Event → List Event → System → Waiting → System → Member
  after_message e mailbox s waiting t = record {
    system = some t;
    mailbox = mailbox;
    waiting = told_stopped t.actor.stopped_tx (received e s waiting);
  }

  deliver-next :
      (e : Event) (mailbox : List Event) (s : System) (waiting : Waiting) (t : System)
      → next e s ≡ ok t
      → do_at build_uri spawn signal_name deliver
          (record { system = some s; mailbox = e ∷ mailbox; waiting = waiting })
        ≡ after_message e mailbox s waiting t
  unfolding do_at do_first
  deliver-next e mailbox s waiting t moved = rw (moved) refl

  deliver-IsStopping :
      (e : Event) (mailbox : List Event) (s : System) (waiting : Waiting) (t : System)
      → IsStopping (record { system = some s; mailbox = e ∷ mailbox; waiting = waiting })
      → next e s ≡ ok t
      → t.actor.program ≡ s.actor.program
      → IsStopping (after_message e mailbox s waiting t)
  deliver-IsStopping e mailbox s waiting t known moved same =
      let there = deliver-next e mailbox s waiting t moved in
      record {
        sound =
            subst IsSoundMember there
              (do_at-IsSound build_uri spawn signal_name deliver _ known.sound);
        told = subst IsTold there (do_at-IsTold build_uri spawn signal_name deliver _ known.told);
        heard =
            subst IsHeard there (do_at-IsHeard build_uri spawn signal_name deliver _ known.heard);
        sent = subst IsSent there (do_at-IsSent build_uri spawn signal_name deliver _ known.sent);
        posted = known.posted.1;
        able = rw (same) known.able;
      }

  -- A caretaker that handles its messages and then goes on is done in the end.
  do_list-some :
      (doings : List Doing) (mailbox : List Event) (s : System) (waiting : Waiting)
      → IsStopping (record { system = some s; mailbox = mailbox; waiting = waiting })
      → FairDoings s.actor.program mailbox doings
      → IsSettled
          (do_list doings (record { system = some s; mailbox = mailbox; waiting = waiting }))
  do_list-some doings [] s waiting known fair = handled-IsSettled doings s waiting known fair
  do_list-some [] (e ∷ mailbox) s waiting known fair = absurd fair
  do_list-some (own x ∷ doings) (e ∷ mailbox) s waiting known fair = absurd fair
  do_list-some (deliver ∷ doings) (e ∷ mailbox) s waiting known fair =
      elim (Outcome-cases (next e s)) [
        | inl panics ↦
            absurd
              (message-no_panic build_uri spawn signal_name e s known.posted.0 known.sound.0 panics)
        | inr (t, moved) ↦
            let timed =
              step-IsTimed build_uri spawn signal_name s.actor.program e s t known.heard.0 moved in
            subst (λ n. IsSettled (do_list doings n))
              (sym (deliver-next e mailbox s waiting t moved))
              (do_list-some doings mailbox t _
                (deliver-IsStopping e mailbox s waiting t known moved timed.same_program)
                (subst (λ p. FairDoings p mailbox doings) (sym timed.same_program) fair))
      ]

  pub do_list-IsSettled :
      (doings : List Doing) (m : Member)
      → IsStopping m
      → FairSystem doings m.mailbox m.system
      → IsSettled (do_list doings m)
  do_list-IsSettled doings m known fair = elim (Option-cases m.system) [
    | inl gone ↦ absurd (rw (gone) at known.able)
    | inr (s, here) ↦
        let there : m ≡ record m { system = some s } = λ i. record m { system = here i } in
        subst
          (λ n. IsStopping n → FairSystem doings n.mailbox n.system → IsSettled (do_list doings n))
          (sym there) (do_list-some doings m.mailbox s m.waiting) known fair
  ]
