-- ===== src/Supervisor/Retry.antt =====
-- src/supervisor/retry.rs. An `Instant` is the number of nanoseconds since the earliest instant
-- of the platform, a `Duration` a number of nanoseconds; the clock's reading is an argument.
pub mod Window
pub mod Queue
mod Tests
use blahaj.Prelude.{
  ℕ, suc, ◌-◌, ◌++◌, List, [], ◌∷◌, Bool, Outcome, ok, panic, ltb, if◌then◌else◌, length, drop,
}

pub record RetryGuard : Type 0 where
  pub retries : List ℕ
  pub tolerance_interval : ℕ
  pub tolerance_count : ℕ

unfoldable pub new : List ℕ → ℕ → ℕ → RetryGuard
new retries interval count = record {
  retries = retries;
  tolerance_interval = interval;
  tolerance_count = count;
}

-- `iter().filter(|item| *item < &before).count()`
count_before : ℕ → List ℕ → ℕ
count_before before [] = 0
count_before before (x ∷ xs) =
    let rest = count_before before xs in if ltb x before then suc rest else rest

unfoldable pub evict : RetryGuard → ℕ → RetryGuard
unfolding count_before
evict guard before = record guard {
  retries = drop (count_before before guard.retries) guard.retries;
}

-- `now - tolerance_interval` panics below the earliest instant.
unfoldable pub mark : ℕ → RetryGuard → Outcome (RetryGuard × Bool)
unfolding evict
mark now guard =
    let pushed = record guard { retries = guard.retries ++ now ∷ [] } in
    let kept = evict pushed (now - guard.tolerance_interval) in
    if ltb now guard.tolerance_interval
    then panic
    else ok (kept, ltb (length kept.retries) guard.tolerance_count)
