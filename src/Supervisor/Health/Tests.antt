-- ===== src/Supervisor/Health/Tests.antt =====
-- Replies to the health checks of src/supervisor/health.rs.
use blahaj.Prelude.{
  ℕ, ◌*◌, List, [], ◌∷◌, ◌≡◌, refl, Bool, true, false, ◌&&◌, some, ok, leb, ltb, arith,
}
use blahaj.Prelude.Text.{Str, codes}
use blahaj.Supervisor.Lifecycle.{healthy}
use blahaj.Supervisor.Health.{
  HealthConfig, HealthActor, set_health_state, Reply, replied, not_sent, Called, new, check,
  on_reply, times,
}
use blahaj.Supervisor.Health.Limit.{on_replies, on_replies-new, longest_failing}

abbrev is_2xx : ℕ → Bool
is_2xx code = leb 200 code && ltb code 300

abbrev no_text : ℕ → Str
no_text code = []

abbrev settings : HealthConfig
settings = record { uri = codes "http://127.0.0.1:80/"; interval = 5; grace_period = 10 }

abbrev replies : List Reply
replies = replied 500 ∷ replied 200 ∷ not_sent [] ∷ replied 404 ∷ replied 200 ∷ []

two_in_a_row : on_replies is_2xx no_text settings (new [] (some settings)) replies ≡ ok true
unfolding on_replies on_reply check new times
two_in_a_row = refl

on_replies-new_example :
    on_replies is_2xx no_text settings (new [] (some settings)) replies
    ≡ ok (
        ltb 0 (longest_failing is_2xx no_text replies)
        && leb 10 (5 * longest_failing is_2xx no_text replies))
on_replies-new_example =
    on_replies-new is_2xx no_text [] settings replies (omega arith, omega arith)

abbrev once_failed : HealthActor
once_failed = record { name = []; config = some settings; stop_tx = true; unhealthy_count = 1 }

abbrev recovered : Called
recovered = record {
  actor = record once_failed { unhealthy_count = 0 };
  effects = set_health_state healthy ∷ [];
  stopped = false;
}
