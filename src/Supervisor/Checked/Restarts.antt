-- ===== src/Supervisor/Checked/Restarts.antt =====
-- A program whose health checks fail (src/supervisor/health.rs) is stopped and run again
-- (src/supervisor/caretaker.rs).
use blahaj.Prelude.{ℕ, List, [], ◌∷◌, ◌≡◌, Bool, true, false, Option, Outcome, if◌then◌else◌}
use blahaj.Prelude.Text.{Str}
use blahaj.Proxy.{Scheme}
use blahaj.Supervisor.Lifecycle.{terminated, failed}
use blahaj.Supervisor.Futs.{Waited, waiting, Poll}
use blahaj.Supervisor.Caretaker.{Command}
use blahaj.Supervisor.Caretaker.Run.{Spawned}
use blahaj.Supervisor.Caretaker.System.{Daemon, active, over, poll_daemon, poll_watch, child_gone}
use blahaj.Supervisor.Checked.{Checked, Happening, own, happen, happen_all}

abbrev pub is_resting : Daemon → Bool
is_resting (active future) = elim future.fut [ waiting _ ↦ true | _ ↦ false ]
is_resting _ = false

-- The child is stopped, and the program waits to be run again, or is given up.
abbrev pub IsStopped : Bool → Checked → Type 0
IsStopped within v =
    (is_resting v.system.daemon ≡ within)
    × (v.system.actor.status ≡ (if within then terminated else failed))
    × (within ≡ false → v.system.daemon ≡ over)

abbrev pub stopping_events : Bool → Poll Waited → ℕ → Bool → List Happening
stopping_events signal wait now slept =
    own (poll_watch signal wait) ∷ own child_gone ∷ own (poll_daemon now slept) ∷ []

module _ (build_uri : Scheme → Str → Str → Option Str) (spawn : Command → Spawned)
    (signal_name : ℕ → Option Str) (is_success : ℕ → Bool) (status_text : ℕ → Str) where
  abbrev next : Happening → Checked → Outcome Checked
  next = happen build_uri spawn signal_name is_success status_text

  abbrev after : List Happening → Checked → Outcome Checked
  after = happen_all build_uri spawn signal_name is_success status_text
