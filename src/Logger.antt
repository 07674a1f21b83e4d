-- ===== src/Logger.antt =====
-- src/logger.rs: the actor that writes log records. A record is its target, level and text; what
-- the crate `log` does with one is not modelled. The streams that the actor is given are the lists of
-- what they yield, from which the runtime takes one item at a time.
pub mod Streams
pub mod Lines
mod Tests
use blahaj.Prelude.{ℕ, zero, suc, List, [], ◌∷◌, ◌++◌, Option, none, some}
use blahaj.Prelude.Text.{Str}

pub data Level : Type 0 where
  error warn info debug trace : Level

pub data IoType : Type 0 where
  stdout stderr : IoType

pub record ChildOutput : Type 0 where
  pub name : Str
  pub ty : IoType
  pub line : Str

pub record Custom : Type 0 where
  pub level : Level
  pub name : Str
  pub text : Str

unfoldable pub new_with_level : Level → Str → Str → Custom
new_with_level level name text = record { level = level; name = name; text = text }

unfoldable pub new : Str → Str → Custom
unfolding new_with_level
new name text = new_with_level warn name text

-- A record that is handed to the crate `log`.
pub record Record : Type 0 where
  pub target : Str
  pub level : Level
  pub args : Str

abbrev level_of : IoType → Level
level_of stdout = info
level_of stderr = warn

-- `StreamHandler<ChildOutput>::handle`.
unfoldable pub handle_output : ChildOutput → Record
handle_output item = record { target = item.name; level = level_of item.ty; args = item.line }

-- `Handler<Custom>::handle`.
unfoldable pub handle_custom : Custom → Record
handle_custom msg = record { target = msg.name; level = msg.level; args = msg.text }

-- `Handler<RegisterStdio>::handle`: the stream is one more of those that the actor handles.
unfoldable pub handle_register :
    List ChildOutput → List (List ChildOutput) → List (List ChildOutput)
handle_register stream streams = streams ++ stream ∷ []

-- What `FramedRead` yields: a line and then more, or an error, with which it ends, or its end.
pub data Framed (Error : Type 0) : Type 0 where
  ended : Framed Error
  broken : Error → Framed Error
  line_then : Str → Framed Error → Framed Error

-- `wrap_stream` of src/supervisor/caretaker.rs: an error is dropped.
unfoldable pub wrap_stream : {Error : Type 0} → Framed Error → Str → IoType → List ChildOutput
wrap_stream ended name io_type = []
wrap_stream (broken e) name io_type = []
wrap_stream (line_then line items) name io_type =
    record { name = name; ty = io_type; line = line } ∷ wrap_stream items name io_type

-- The next item of one of the streams, by its place, and the streams behind it.
unfoldable pub pull {ℓ} : {A : Type ℓ} → ℕ → List (List A) → Option A × List (List A)
pull place [] = (none, [])
pull zero ([] ∷ streams) = (none, [] ∷ streams)
pull zero ((item ∷ rest) ∷ streams) = (some item, rest ∷ streams)
pull (suc place) (stream ∷ streams) =
    let (item, after) = pull place streams in (item, stream ∷ after)

-- The items in the order in which the runtime takes them from the streams.
unfoldable pub take_items {ℓ} : {A : Type ℓ} → List ℕ → List (List A) → List A
unfolding pull
take_items [] streams = []
take_items (place ∷ schedule) streams =
    let (item, after) = pull place streams in
    let rest = take_items schedule after in elim item [ none ↦ rest | some x ↦ x ∷ rest ]
