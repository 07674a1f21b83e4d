-- ===== src/LogFormat/Tests.antt =====
-- src/log_format.rs for some targets and threads.
use blahaj.Prelude.{◌+◌, ◌++◌, refl, ◌<◌, [], ◌∷◌, ◌≡◌, arith, length}
use blahaj.Prelude.Text.{Str, codes}
use blahaj.Logger.{Record, info}
use blahaj.LogFormat.Columns.{default_format-column}
use blahaj.LogFormat.{
  loading, Threads, run, pad, len, max_target_width, map_level, len_utf8, default_format,
}
use blahaj.LogFormat.Width.{run-lost}

abbrev two_threads : Threads
two_threads = record { stored = 2; calls = loading 7 ∷ loading 4 ∷ [] }

run-lost_example :
    let threads = run (0 ∷ 1 ∷ 0 ∷ 1 ∷ []) two_threads in
    (threads.stored ≡ 4) × (threads.stored < 7)
run-lost_example = run-lost 2 7 4 (omega arith) (omega arith)

abbrev entry : Record
entry = record { target = codes "web"; level = info; args = codes "up" }

default_format-column_example :
    let line = default_format (codes "12:00") 9 entry in
    (head : Str) × (line.1 ≡ head ++ codes "up")
    × (length head ≡ 11 + length (codes "12:00") + line.0)
default_format-column_example = default_format-column (codes "12:00") 9 entry

line_test : default_format (codes "12:00") 5 entry ≡ (5, codes " 12:00 INFO  web   > up")
unfolding default_format max_target_width pad map_level len len_utf8
line_test = refl
