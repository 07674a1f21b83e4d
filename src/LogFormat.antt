-- ===== src/LogFormat.antt =====
-- src/log_format.rs: the lines that are logged. The time and the styles are texts that other
-- crates make. The width of a target is its length in bytes, the padding counts characters.
pub mod Width
pub mod Columns
mod Tests
use blahaj.Prelude.{
  ℕ, zero, suc, ◌+◌, ◌-◌, List, [], ◌∷◌, ◌++◌, ltb, if◌then◌else◌, length, replicate,
}
use blahaj.Prelude.Text.{Str, codes}
use blahaj.Logger.{Level, error, warn, info, debug, trace, Record}

-- `format!("{: <width$}", s)`.
unfoldable pub pad : Str → ℕ → Str
pad s width = s ++ replicate (width - length s) b' '

unfoldable pub map_level : Level → Str
map_level error = codes "ERROR"
map_level warn = codes "WARN "
map_level info = codes "INFO "
map_level debug = codes "DEBUG"
map_level trace = codes "TRACE"

-- What a thread does next in `max_target_width`: it reads the width, it has read one, or it is done
-- with the width that the call returns.
pub data Call : Type 0 where
  loading : ℕ → Call
  comparing : ℕ → ℕ → Call
  returned : ℕ → ℕ → Call

-- One access to `MAX_TARGET_WIDTH`, or the return without one: the width that is stored, and where
-- the call is then. The first number of a call is the length of its target.
unfoldable pub access : ℕ → Call → ℕ × Call
access stored (loading len) = (stored, comparing len stored)
access stored (comparing len max_width) =
    if ltb max_width len then (len, returned len len) else (stored, returned len max_width)
access stored (returned len width) = (stored, returned len width)

-- A call that nothing interrupts: the width that is stored, and the one that is returned.
unfoldable pub max_target_width : ℕ → ℕ → ℕ × ℕ
max_target_width stored len = if ltb stored len then (len, len) else (stored, stored)

-- The length in bytes of a code point and of a text, in UTF-8.
unfoldable pub len_utf8 : ℕ → ℕ
len_utf8 c = if ltb c 128 then 1 else if ltb c 2_048 then 2 else if ltb c 65_536 then 3 else 4

unfoldable pub len : Str → ℕ
unfolding len_utf8
len [] = 0
len (c ∷ s) = len_utf8 c + len s

-- A line that nothing interrupts, from the text of the time: the width that is stored behind it,
-- and the line.
unfoldable pub default_format : Str → ℕ → Record → ℕ × Str
unfolding max_target_width pad map_level len
default_format now stored entry =
    let (kept, width) = max_target_width stored (len entry.target) in
    (
      kept,
      codes " "
          ++ (now
              ++ (codes " "
                  ++ (map_level entry.level
                      ++ (codes " " ++ (pad entry.target width ++ (codes " > " ++ entry.args)))))),
    )

-- The same line with colours: `paint_level` paints in the bold style of a level, `paint_bold` in
-- the bold one, and the time has another format.
unfoldable pub colored_default_format :
    (Level → Str → Str) → (Str → Str) → Str → ℕ → Record → ℕ × Str
unfolding max_target_width pad map_level len
colored_default_format paint_level paint_bold now stored entry =
    let (kept, width) = max_target_width stored (len entry.target) in
    (
      kept,
      codes " "
          ++ (now
              ++ (codes " "
                  ++ (paint_level entry.level (map_level entry.level)
                      ++ (codes " "
                          ++ (paint_bold (pad entry.target width)
                              ++ (codes " > " ++ entry.args)))))),
    )

-- Threads that share the width, each in a call.
pub record Threads : Type 0 where
  pub stored : ℕ
  pub calls : List Call

-- The access of one of them, by its place.
unfoldable pub step : ℕ → ℕ → List Call → Threads
unfolding access
step place stored [] = record { stored = stored; calls = [] }
step zero stored (call ∷ calls) =
    let (after, next) = access stored call in record { stored = after; calls = next ∷ calls }
step (suc place) stored (call ∷ calls) =
    let after = step place stored calls in
    record { stored = after.stored; calls = call ∷ after.calls }

-- Accesses in the order of a schedule.
unfoldable pub run : List ℕ → Threads → Threads
unfolding step
run [] threads = threads
run (place ∷ schedule) threads = run schedule (step place threads.stored threads.calls)
