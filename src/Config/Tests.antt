-- ===== src/Config/Tests.antt =====
-- Values of src/config.rs, read with an expansion that changes nothing but refuses the empty text.
use blahaj.Prelude.{List, [], ◌∷◌, ◌≡◌, refl, ◌⊎◌, inl, inr}
use blahaj.Prelude.Text.{Str, codes}
use blahaj.Config.{CommandLine}
use blahaj.Config.Values.{visit_command}
use blahaj.Text.{split}

abbrev expand : Str → Str ⊎ Str
expand [] = inl (codes "nothing to expand")
expand (c ∷ s) = inr (c ∷ s)

abbrev words : Str → List Str
words = split b' '

abbrev echo_line : CommandLine
echo_line = record { cmd = codes "echo"; args = codes "a" ∷ [] }

echo_read : visit_command expand words (codes "echo a") ≡ inr echo_line
unfolding visit_command split
echo_read = refl

empty_refused : visit_command expand words [] ≡ inl (codes "nothing to expand")
unfolding visit_command
empty_refused = refl
