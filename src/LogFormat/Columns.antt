-- ===== src/LogFormat/Columns.antt =====
-- The columns of the lines of src/log_format.rs.
use blahaj.Prelude.{ℕ, ◌+◌, ◌++◌, ◌≡◌, append_assoc, length, length-append, arith}
use blahaj.Prelude.Text.{Str, codes}
use blahaj.Logger.{Level, Record}
use blahaj.LogFormat.{pad, map_level, len, max_target_width, default_format}
use blahaj.LogFormat.Width.{pad-max_target_width}

length-map_level : (level : Level) → length (map_level level) ≡ 5
unfolding map_level
length-map_level level = ground arith

-- What a line has before the text of its record.
head_of : Str → ℕ → Record → Str
head_of now stored entry =
    codes " "
    ++ (now
        ++ (codes " "
            ++ (map_level entry.level
                ++ (codes " "
                    ++ (pad entry.target (max_target_width stored (len entry.target)).1
                        ++ codes " > ")))))

length-head_of :
    (now : Str) (stored : ℕ) (entry : Record)
    → length (head_of now stored entry)
      ≡ 11 + length now + (max_target_width stored (len entry.target)).0
unfolding head_of
length-head_of now stored entry =
    let width = (max_target_width stored (len entry.target)).1 in
    let (padded, same, _, _) = pad-max_target_width stored entry.target in
    let target = pad entry.target width ++ codes " > " in
    let level = map_level entry.level ++ (codes " " ++ target) in
    omega (
      arith,
      length-append now (codes " " ++ level),
      length-append (map_level entry.level) (codes " " ++ target),
      length-append (pad entry.target width) (codes " > "),
      length-map_level entry.level,
      padded,
      same,
    )

-- The text of a record begins behind the time, the level, the target padded to the width that is
-- then stored, and eleven characters for the level and between them: in one column for all lines
-- with one width stored and a time of one length.
pub default_format-column :
    (now : Str) (stored : ℕ) (entry : Record)
    → let line = default_format now stored entry in
      (head : Str) × (line.1 ≡ head ++ entry.args) × (length head ≡ 11 + length now + line.0)
unfolding default_format head_of
default_format-column now stored entry =
    (head_of now stored entry, simp append_assoc, length-head_of now stored entry)
