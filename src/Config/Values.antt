-- ===== src/Config/Values.antt =====
-- src/config.rs: how the values of an environment and the command lines are read. The crates
-- `shellexpand` and `shlex` are parameters, as is the text that a deserializer hands out.
use blahaj.Prelude.{
  Sum-cases, List, [], ◌∷◌, ◌≡◌, ◌↔◌, refl, Option, none, some, ◌⊎◌, inl, inr, arith,
}
use blahaj.Prelude.Text.{Str}
use blahaj.Error.{SupervisorError, command, display_supervisor_error}
use blahaj.Config.{Env, CommandLine}

-- `Shlex`: the first word is the command.
unfoldable pub command_from_words : List Str → SupervisorError ⊎ CommandLine
command_from_words [] = inl command
command_from_words (cmd ∷ args) = inr (record { cmd = cmd; args = args })

-- `map_err(E::custom)`: the error is its text.
unfoldable pub custom_command : SupervisorError ⊎ CommandLine → Str ⊎ CommandLine
custom_command (inl e) = inl (display_supervisor_error e)
custom_command (inr line) = inr line

-- `expand` is `shellexpand::env`, with the text of its error; `words` is what `Shlex` yields.
module _ (expand : Str → Str ⊎ Str) (words : Str → List Str) where
  -- `CommandLine::from_str`.
  unfoldable pub command_from_str : Str → SupervisorError ⊎ CommandLine
  unfolding command_from_words
  command_from_str s = command_from_words (words s)

  -- `CommandLineVisitor::visit_str`, and likewise for a borrowed and an owned text.
  unfoldable pub visit_command : Str → Str ⊎ CommandLine
  unfolding command_from_str custom_command
  visit_command v = elim (expand v) [
    | inl e ↦ inl e
    | inr text ↦ custom_command (command_from_str text)
  ]

  words_read :
      (line : CommandLine) (found : List Str)
      → (custom_command (command_from_words found) ≡ inr line) ↔ (found ≡ line.cmd ∷ line.args)
  unfolding command_from_words custom_command
  words_read line [] = ((λ h. ground (arith, h)), (λ h. ground (arith, h)))
  words_read line (cmd ∷ args) = ((λ h. ground (arith, h)), (λ h. ground (arith, h)))

  -- A command line is read exactly where the text expands and the words of what it expands to are
  -- the command and its arguments: the variables are expanded first, and a text of no word is
  -- refused.
  visit_command_iff :
      (v : Str) (line : CommandLine)
      → (visit_command v ≡ inr line)
        ↔ ((text : Str) × (expand v ≡ inr text) × (words text ≡ line.cmd ∷ line.args))
  unfolding visit_command command_from_str command_from_words custom_command
  visit_command_iff v line = (
    (λ h. elim (Sum-cases (expand v)) [
      | inl (e, refused) ↦ ground (arith, refused, h)
      | inr (text, expanded) ↦
          (text, expanded, (words_read line (words text)).0 (rw (expanded, visit_command) at h))
    ]),
    (λ (text, expanded, split).
        rw (expanded, visit_command) ((words_read line (words text)).1 split)),
  )

module _ (expand : Str → Str ⊎ Str) where
  -- `Env::from_str`, and `EnvVisitor::visit_str` for each kind of text.
  unfoldable pub env_from_str : Str → Str ⊎ Env
  env_from_str s = elim (expand s) [ inl e ↦ inl e | inr text ↦ inr (record { value = some text }) ]

  -- `Env::deserialize`, of a null or a text.
  unfoldable pub deserialize_env : Option Str → Str ⊎ Env
  unfolding env_from_str
  deserialize_env none = inr (record { value = none })
  deserialize_env (some v) = env_from_str v

  -- A value of the environment is read as a removal exactly where it is null, and as a text exactly
  -- where it is one that expands to that text.
  deserialize_env_iff :
      (given : Option Str) (text : Str)
      → ((deserialize_env given ≡ inr (record { value = none })) ↔ (given ≡ none))
        × ((deserialize_env given ≡ inr (record { value = some text }))
            ↔ ((v : Str) × (given ≡ some v) × (expand v ≡ inr text)))
  unfolding deserialize_env env_from_str
  deserialize_env_iff none text =
      ((λ h. refl, λ h. refl), ((λ h. ground (arith, h)), (λ h. ground (arith, h))))
  deserialize_env_iff (some v) text = (
    (λ h. ground (arith, h), λ h. ground (arith, h)),
    ((λ h. (v, refl, ground (arith, h))), (λ h. ground (arith, h))),
  )
