-- ===== src/Config/Unknown.antt =====
-- Fields of a configuration file that src/config.rs does not know.
use blahaj.Prelude.{List, [], ◌∷◌, ◌++◌, ◌≡◌, refl, ◌⊎◌, false, Option, some, arith}
use blahaj.Prelude.Text.{Str, codes}
use blahaj.Config.Document.{Deserializer, is_any, values, field, program_of, read_program}

-- The names of the fields of `Program`.
abbrev pub program_names : List Str
program_names =
    codes "command"
    ∷ codes "env"
    ∷ codes "environment"
    ∷ codes "http"
    ∷ codes "retry"
    ∷ codes "grace"
    ∷ []

values-skip :
    {Node : Type 0} (names : List Str) (key : Str) (v : Node) (before after : List (Str × Node))
    → is_any names key ≡ false
    → values names (before ++ (key, v) ∷ after) ≡ values names (before ++ after)
unfolding values
values-skip names key v [] after other = rw (other) refl
values-skip names key v ((name, w) ∷ before) after other =
    rw (values-skip names key v before after other) refl

field-skip :
    {Node A : Type 0} (missing : Option A) (read : Node → Option A) (names : List Str) (key : Str)
    (v : Node) (before after : List (Str × Node))
    → is_any names key ≡ false
    → field missing read names (before ++ (key, v) ∷ after)
      ≡ field missing read names (before ++ after)
unfolding field
field-skip missing read names key v before after other =
    rw (values-skip names key v before after other) refl

module _ {Node : Type 0} (de : Deserializer Node) (expand : Str → Str ⊎ Str)
    (words : Str → List Str) where
  program_of-skip :
      (before after : List (Str × Node)) (key : Str) (v : Node)
      → is_any program_names key ≡ false
      → program_of de expand words (before ++ (key, v) ∷ after)
        ≡ program_of de expand words (before ++ after)
  unfolding program_of
  program_of-skip before after key v unknown =
      let command : is_any (codes "command" ∷ []) key ≡ false = ground (arith, unknown) in
      let env : is_any (codes "env" ∷ codes "environment" ∷ []) key ≡ false =
        ground (arith, unknown) in
      let http : is_any (codes "http" ∷ []) key ≡ false = ground (arith, unknown) in
      let retry : is_any (codes "retry" ∷ []) key ≡ false = ground (arith, unknown) in
      let grace : is_any (codes "grace" ∷ []) key ≡ false = ground (arith, unknown) in
      rw
        (
          values-skip _ key v before after command,
          values-skip _ key v before after env,
          values-skip _ key v before after http,
          values-skip _ key v before after retry,
          values-skip _ key v before after grace,
        )
        refl

  -- An entry of a program under a name that is none of its fields changes nothing, wherever it
  -- stands: what is read, or that nothing can be read, is as without it.
  pub unknown_ignored :
      (node other : Node) (before after : List (Str × Node)) (key : Str) (v : Node)
      → de.entries node ≡ some (before ++ (key, v) ∷ after)
      → de.entries other ≡ some (before ++ after)
      → is_any program_names key ≡ false
      → read_program de expand words node ≡ read_program de expand words other
  unfolding read_program
  unknown_ignored node other before after key v at_node at_other unknown =
      rw (at_node, at_other) (program_of-skip before after key v unknown)
