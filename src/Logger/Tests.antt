-- ===== src/Logger/Tests.antt =====
-- The output of one child among that of another (src/logger.rs).
use blahaj.Prelude.{ℕ, List, [], ◌∷◌, ◌++◌, ◌≡◌, refl, map, arith}
use blahaj.Prelude.Text.{codes}
use blahaj.Text.{str_eq}
use blahaj.Logger.{
  ChildOutput, stdout, stderr, info, warn, handle_output, Framed, ended, broken, line_then,
  wrap_stream, pull, take_items,
}
use blahaj.Logger.Streams.{concat, left_after}
use blahaj.Logger.Lines.{lines_at, read_lines, logged_lines}

-- The standard output ends with a line that is too long.
abbrev outs : Framed ℕ
outs = line_then (codes "one") (line_then (codes "two") (broken 5))

abbrev errs : Framed ℕ
errs = line_then (codes "oh") ended

other : List ChildOutput
unfolding wrap_stream
other = wrap_stream {Error = ℕ} (line_then (codes "x") ended) (codes "b") stdout

abbrev streams : List (List ChildOutput)
streams =
    (other ∷ []) ++ wrap_stream outs (codes "a") stdout ∷ wrap_stream errs (codes "a") stderr ∷ []

taken_test :
    lines_at (codes "a") info (map handle_output (take_items (2 ∷ 1 ∷ 0 ∷ 1 ∷ 1 ∷ []) streams))
    ≡ codes "one" ∷ codes "two" ∷ []
unfolding take_items pull wrap_stream handle_output str_eq other
taken_test = refl

logged_lines_example :
    let records = map handle_output (take_items (2 ∷ 1 ∷ 0 ∷ []) streams) in
    let left = map handle_output (concat (left_after (2 ∷ 1 ∷ 0 ∷ []) streams)) in
    (read_lines outs ≡ lines_at (codes "a") info records ++ lines_at (codes "a") info left)
    × (read_lines errs ≡ lines_at (codes "a") warn records ++ lines_at (codes "a") warn left)
unfolding other wrap_stream
logged_lines_example =
    logged_lines (codes "a") outs errs (other ∷ []) [] (2 ∷ 1 ∷ 0 ∷ [])
      ((((λ e. ground (arith, e)), tt), tt)) tt
