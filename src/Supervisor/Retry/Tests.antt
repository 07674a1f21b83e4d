-- ===== src/Supervisor/Retry/Tests.antt =====
-- Runs of the guard of src/supervisor/retry.rs on concrete times.
use blahaj.Prelude.{ℕ, ◌≡◌, refl, List, [], ◌∷◌, true, false, ok, arith}
use blahaj.Supervisor.Retry.{RetryGuard, new, mark}
use blahaj.Supervisor.Retry.Window.{marks, verdicts, marks-new}

-- Three exits within ten seconds, then one after a pause.
abbrev exits : List ℕ
exits = 20 ∷ 22 ∷ 29 ∷ 50 ∷ []

marks_example : marks exits (new [] 10 3) ≡ ok (true ∷ true ∷ false ∷ true ∷ [])
unfolding marks mark new
marks_example = refl

marks-new_example : marks exits (new [] 10 3) ≡ ok (verdicts 10 3 [] exits)
marks-new_example = marks-new 10 3 exits (omega arith) (omega arith)

abbrev crowded : RetryGuard
crowded = record { retries = 3 ∷ 5 ∷ 9 ∷ []; tolerance_interval = 4; tolerance_count = 1 }
