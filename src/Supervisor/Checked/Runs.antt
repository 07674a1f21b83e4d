-- ===== src/Supervisor/Checked/Runs.antt =====
-- Events at a caretaker with its health actors (src/supervisor/caretaker.rs), as a whole.
use blahaj.Prelude.{
  ℕ, List, [], ◌∷◌, ◌++◌, ◌≡◌, refl, inl, inr, Bool, Option, Outcome, ok, ◌>>=◌, Outcome-cases,
  arith,
}
use blahaj.Prelude.Text.{Str}
use blahaj.Proxy.{Scheme}
use blahaj.Supervisor.Lifecycle.{HealthState}
use blahaj.Supervisor.Caretaker.{Command}
use blahaj.Supervisor.Caretaker.Run.{Spawned}
use blahaj.Supervisor.Caretaker.System.{Event, poll_watch, set_health_msg}
use blahaj.Supervisor.Caretaker.Invariant.{IsSound, step-IsSound}
use blahaj.Supervisor.Checked.{
  Checked, is_ready, Happening, own, deliver, check_at, on_deliver, happen, happen_all,
}

module _ (build_uri : Scheme → Str → Str → Option Str) (spawn : Command → Spawned)
    (signal_name : ℕ → Option Str) (is_success : ℕ → Bool) (status_text : ℕ → Str) where
  abbrev next : Happening → Checked → Outcome Checked
  next = happen build_uri spawn signal_name is_success status_text

  abbrev after : List Happening → Checked → Outcome Checked
  after = happen_all build_uri spawn signal_name is_success status_text

  module _ (w v : Checked) (sound : IsSound w.system) where
    own-IsSound : (e : Event) → next (own e) w ≡ ok v → IsSound v.system
    unfolding happen
    own-IsSound (set_health_msg state) moved = ground (arith, sound, moved)
    own-IsSound (poll_watch signal wait) moved = ground (
      arith,
      moved,
      step-IsSound build_uri spawn signal_name (poll_watch (is_ready w.checks) wait) w.system
          v.system sound,
    )
    own-IsSound e moved =
        ground (arith, moved, step-IsSound build_uri spawn signal_name e w.system v.system sound)

    deliver-IsSound :
        (inbox : List HealthState)
        → on_deliver build_uri spawn signal_name is_success status_text inbox w ≡ ok v
        → IsSound v.system
    unfolding on_deliver
    deliver-IsSound [] moved = ground (arith, sound, moved)
    deliver-IsSound (state ∷ rest) moved = ground (
      arith,
      moved,
      step-IsSound build_uri spawn signal_name (set_health_msg state) w.system v.system sound,
    )

    happen-IsSound : (h : Happening) → next h w ≡ ok v → IsSound v.system
    unfolding happen
    happen-IsSound (own e) moved = own-IsSound e moved
    happen-IsSound deliver moved = deliver-IsSound w.inbox moved
    happen-IsSound (check_at place e) moved = ground (arith, sound, moved)

  pub happen_all-IsSound :
      (hs : List Happening) (w v : Checked)
      → IsSound w.system
      → after hs w ≡ ok v
      → IsSound v.system
  unfolding happen_all
  happen_all-IsSound [] w v sound e = ground (arith, sound, e)
  happen_all-IsSound (h ∷ hs) w v sound e = elim (Outcome-cases (next h w)) [
    | inl panics ↦ cc (rw (panics, happen_all) at e)
    | inr (u, moved) ↦
        happen_all-IsSound hs u v (happen-IsSound w u sound h moved) (rw (moved, happen_all) at e)
  ]

  pub after-append :
      (first second : List Happening) (w : Checked)
      → after (first ++ second) w ≡ (do v ← after first w; after second v)
  unfolding happen_all
  after-append [] second w = refl
  after-append (h ∷ first) second w = elim (Outcome-cases (next h w)) [
    | inl panics ↦ rw (panics) refl
    | inr (u, moved) ↦ rw (moved) (after-append first second u)
  ]
