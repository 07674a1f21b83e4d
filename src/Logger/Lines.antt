-- ===== src/Logger/Lines.antt =====
-- The lines of one child's output among the records of src/logger.rs.
use blahaj.Prelude.{
  ℕ, List, [], ◌∷◌, ◌++◌, ◌≡◌, ◌≢◌, refl, sym, ◌∙◌, ap, inl, inr, Bool, true, false, All, map,
  if◌then◌else◌, ◌&&◌, ◌==◌, arith,
}
use blahaj.Prelude.Text.{Str}
use blahaj.Text.{str_eq}
use blahaj.Text.Laws.{str_eq_iff, str_eq_refl}
use blahaj.Logger.{
  IoType, stdout, stderr, ChildOutput, Level, error, warn, info, debug, trace, level_of, Record,
  handle_output, Framed, ended, broken, line_then, wrap_stream, take_items,
}
use blahaj.Logger.Streams.{filter, concat, left_after, Alone, taken-Alone}

abbrev pub level_number : Level → ℕ
level_number error = 1
level_number warn = 2
level_number info = 3
level_number debug = 4
level_number trace = 5

-- The texts of the records with a target and a level.
abbrev pub lines_at : Str → Level → List Record → List Str
lines_at target level [] = []
lines_at target level (r ∷ records) =
    let rest = lines_at target level records in
    if str_eq r.target target && level_number r.level == level_number level
    then r.args ∷ rest
    else rest

-- The lines that `FramedRead` yields, up to its end.
abbrev pub read_lines : {Error : Type 0} → Framed Error → List Str
read_lines ended = []
read_lines (broken e) = []
read_lines (line_then line items) = line ∷ read_lines items

is_of : Str → IoType → ChildOutput → Bool
is_of name ty item =
    str_eq item.name name && level_number (level_of item.ty) == level_number (level_of ty)

lines_at-filter :
    (name : Str) (ty : IoType) (items : List ChildOutput)
    → lines_at name (level_of ty) (map handle_output items)
      ≡ map (λ (i : ChildOutput). i.line) (filter (is_of name ty) items)
unfolding is_of handle_output
lines_at-filter name ty [] = refl
lines_at-filter name ty (item ∷ items) = ground (arith, lines_at-filter name ty items)

wrap_stream-lines :
    {Error : Type 0} (items : Framed Error) (name : Str) (ty : IoType)
    → map (λ (i : ChildOutput). i.line) (wrap_stream items name ty) ≡ read_lines items
unfolding wrap_stream
wrap_stream-lines ended name ty = refl
wrap_stream-lines (broken e) name ty = refl
wrap_stream-lines (line_then line items) name ty =
    ap (λ t. line ∷ t) (wrap_stream-lines items name ty)

wrap_stream-kept :
    {Error : Type 0} (items : Framed Error) (name : Str) (ty : IoType)
    → All (λ i. is_of name ty i ≡ true) (wrap_stream items name ty)
unfolding wrap_stream is_of
wrap_stream-kept ended name ty = tt
wrap_stream-kept (broken e) name ty = tt
wrap_stream-kept (line_then line items) name ty =
    (ground (arith, str_eq_refl name), wrap_stream-kept items name ty)

wrap_stream-dropped :
    {Error : Type 0} (items : Framed Error) (name : Str) (ty other : IoType)
    → ty ≢ other
    → All (λ i. is_of name ty i ≡ false) (wrap_stream items name other)
unfolding wrap_stream is_of
wrap_stream-dropped ended name ty other ne = tt
wrap_stream-dropped (broken e) name ty other ne = tt
wrap_stream-dropped (line_then line items) name ty other ne =
    (ground (arith, str_eq_refl name), wrap_stream-dropped items name ty other ne)

-- The streams of other programs.
abbrev pub AllOther : Str → List (List ChildOutput) → Type 0
AllOther name = All (All (λ i. i.name ≢ name))

stream-dropped :
    (name : Str) (ty : IoType) (stream : List ChildOutput)
    → All (λ i. i.name ≢ name) stream
    → All (λ i. is_of name ty i ≡ false) stream
unfolding is_of
stream-dropped name ty [] h = tt
stream-dropped name ty (i ∷ stream) (ne, h) =
    (ground (arith, str_eq_iff i.name name, ne), stream-dropped name ty stream h)

streams-dropped :
    (name : Str) (ty : IoType) (streams : List (List ChildOutput))
    → AllOther name streams
    → All (All (λ i. is_of name ty i ≡ false)) streams
streams-dropped name ty [] h = tt
streams-dropped name ty (s ∷ streams) (h, hs) =
    (stream-dropped name ty s h, streams-dropped name ty streams hs)

Alone-behind :
    (name : Str) (ty : IoType) (mine : List ChildOutput) (before streams : List (List ChildOutput))
    → AllOther name before
    → Alone (is_of name ty) mine streams
    → Alone (is_of name ty) mine (before ++ streams)
Alone-behind name ty mine [] streams h alone = alone
Alone-behind name ty mine (s ∷ before) streams (h, hs) alone =
    inr (stream-dropped name ty s h, Alone-behind name ty mine before streams hs alone)

map-append {ℓ κ} :
    {A : Type ℓ} {B : Type κ} (f : A → B) (xs ys : List A) → map f (xs ++ ys) ≡ map f xs ++ map f ys
map-append f [] ys = refl
map-append f (x ∷ xs) ys = ap (λ t. f x ∷ t) (map-append f xs ys)

-- The lines of a stream that alone has records of its name and level.
lines-Alone :
    {Error : Type 0} (items : Framed Error) (name : Str) (ty : IoType) (schedule : List ℕ)
    (streams : List (List ChildOutput))
    → Alone (is_of name ty) (wrap_stream items name ty) streams
    → read_lines items
      ≡ lines_at name (level_of ty) (map handle_output (take_items schedule streams))
        ++ lines_at name (level_of ty) (map handle_output (concat (left_after schedule streams)))
lines-Alone items name ty schedule streams alone =
    let taken = take_items schedule streams in
    let left = concat (left_after schedule streams) in
    let e = taken-Alone (is_of name ty) schedule (wrap_stream items name ty) streams alone in
    let line = λ (i : ChildOutput). i.line in
    rw (lines_at-filter name ty taken, lines_at-filter name ty left)
      (sym (wrap_stream-lines items name ty)
        ∙ ap (map line) e
        ∙ map-append line (filter (is_of name ty) taken) (filter (is_of name ty) left))

-- However the runtime takes the items from the streams: for a program whose name no other stream
-- has, the records of its lines at level `info`, and then those of the lines that are not taken yet,
-- are the lines of its standard output, up to where no more can be read, each once and in their
-- order; and those at level `warn` likewise are the lines of its standard error. The records are
-- those of the children's lines, without what the actors log themselves.
pub logged_lines :
    {Error : Type 0} (name : Str) (outs errs : Framed Error)
    (before after : List (List ChildOutput)) (schedule : List ℕ)
    → AllOther name before
    → AllOther name after
    → let streams = before ++ wrap_stream outs name stdout ∷ wrap_stream errs name stderr ∷ after in
      let records = map handle_output (take_items schedule streams) in
      let left = map handle_output (concat (left_after schedule streams)) in
      (read_lines outs ≡ lines_at name info records ++ lines_at name info left)
      × (read_lines errs ≡ lines_at name warn records ++ lines_at name warn left)
logged_lines name outs errs before after schedule others_before others_after =
    let out = wrap_stream outs name stdout in
    let err = wrap_stream errs name stderr in
    (
      lines-Alone outs name stdout schedule _ (
          Alone-behind name stdout out before (out ∷ err ∷ after) others_before (
            inl (
              wrap_stream-kept outs name stdout,
              refl,
              (
                wrap_stream-dropped errs name stdout stderr (λ e. cc),
                streams-dropped name stdout after others_after,
              ),
            ))),
      lines-Alone errs name stderr schedule _ (
          Alone-behind name stderr err before (out ∷ err ∷ after) others_before (
            inr (
              wrap_stream-dropped outs name stderr stdout (λ e. cc),
              inl (
                wrap_stream-kept errs name stderr,
                refl,
                streams-dropped name stderr after others_after,
              ),
            ))),
    )
