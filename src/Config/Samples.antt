-- ===== src/Config/Samples.antt =====
-- The test of src/config.rs on tests/simple.yaml, and a program with a name that is none of its
-- fields. The nodes are trees, and the crates' readers are simple ones that suffice here.
use blahaj.Prelude.{
  ℕ, List, [], ◌∷◌, ◌≡◌, refl, ◌⊎◌, inr, true, false, Option, none, some, ◌+◌, ◌*◌, ◌-◌,
  if◌then◌else◌, ◌==◌,
}
use blahaj.Prelude.Text.{Str, codes}
use blahaj.Text.{str_eq, split, rsplit_once}
use blahaj.Map.{lookup, collect}
use blahaj.Config.{SocketAddr, Program, Config, default, default_stop_grace, second}
use blahaj.Config.Values.{
  visit_command, deserialize_env, command_from_str, command_from_words, custom_command,
  env_from_str,
}
use blahaj.Config.Document.{
  Deserializer, values, field, read_config, read_program, program_of, read_all, read_command,
  read_env, read_http_relay, read_health_check, read_retry,
}
use blahaj.Config.Unknown.{unknown_ignored}

mutual
  pub data Node : Type 0 where
    null : Node
    scalar : Str → Node
    mapping : Fields → Node

  pub data Fields : Type 0 where
    nil : Fields
    entry : Str → Node → Fields → Fields

abbrev listed : Fields → List (Str × Node)
listed nil = []
listed (entry key v rest) = (key, v) ∷ listed rest

abbrev present : Node → Option Node
present null = none
present n = some n

abbrev entries_of : Node → Option (List (Str × Node))
entries_of (mapping fields) = some (listed fields)
entries_of _ = none

abbrev text_of : Node → Option Str
text_of (scalar s) = some s
text_of _ = none

-- The variables that the test sets, in the texts that it has them in.
abbrev variables : List (Str × Str)
variables =
    (codes "$HOST:$PORT", codes "0.0.0.0:8000")
    ∷ (codes "$A $B", codes "echo a b")
    ∷ (codes "env_${ENV_A}", codes "env_a")
    ∷ (codes "$A_PORT", codes "8080")
    ∷ []

unfoldable pub expanded : Str → Str
unfolding lookup str_eq
expanded s = elim (lookup s variables) [ some text ↦ text | none ↦ s ]

abbrev number : ℕ → Str → ℕ
number n [] = n
number n (c ∷ s) = number (10 * n + (c - b'0')) s

abbrev unit_of : ℕ → ℕ
unit_of c = if c == b'm' then 60 * second else second

abbrev duration : ℕ → Str → ℕ
duration n [] = n
duration n (c ∷ []) = n * unit_of c
duration n (c ∷ d ∷ s) = duration (10 * n + (c - b'0')) (d ∷ s)

address_of : Str → Option SocketAddr
unfolding rsplit_once
address_of s = elim (rsplit_once b':' s) [
  | some (ip, port) ↦ some (record { ip = ip; port = number 0 port })
  | none ↦ none
]

abbrev read_text : {A : Type 0} → (Str → Option A) → Node → Option A
read_text read (scalar s) = read (expanded s)
read_text read _ = none

unfoldable pub nodes : Deserializer Node
unfolding expanded address_of str_eq
nodes = record {
  entries = entries_of;
  option = present;
  text = text_of;
  address = read_text address_of;
  string = read_text some;
  port = read_text (λ s. some (number 0 s));
  size = read_text (λ s. some (number 0 s));
  flag = read_text (λ s. some (str_eq s (codes "true")));
  duration = read_text (λ s. some (duration 0 s));
}

abbrev one : Str → Str → Fields → Fields
one key v = entry key (scalar v)

abbrev health_check : Node
health_check = mapping (
    one (codes "path") (codes "/")
      (one (codes "interval") (codes "10s") (one (codes "grace") (codes "1m") nil)))

abbrev retry : Node
retry = mapping (
    one (codes "window") (codes "5s")
      (one (codes "count") (codes "2") (one (codes "delay") (codes "5s") nil)))

abbrev pub program_a : Node
program_a = mapping (
    one (codes "command") (codes "$A $B") (
      entry (codes "env")
        (mapping (entry (codes "a") null (one (codes "b") (codes "env_${ENV_A}") nil)))
        (entry (codes "http")
          (mapping (
            one (codes "port") (codes "$A_PORT") (
              one (codes "path") (codes "/some_path") (
                one (codes "https") (codes "true") (
                  one (codes "strip-path") (codes "true")
                    (entry (codes "health-check") health_check nil))))))
          (entry (codes "retry") retry (one (codes "grace") (codes "20s") nil)))))

abbrev pub program_b : Node
program_b = mapping (
    one (codes "command") (codes "b") (
      entry (codes "http")
        (mapping (one (codes "port") (codes "8080") (one (codes "path") (codes "/some_path") nil)))
        nil))

abbrev pub program_c : Node
program_c = mapping (one (codes "command") (codes "c") nil)

abbrev pub programs : Node
programs =
    mapping
      (entry (codes "a") program_a (entry (codes "b") program_b (entry (codes "c") program_c nil)))

abbrev pub bind_node : Node
bind_node = scalar (codes "$HOST:$PORT")

abbrev pub simple : Node
simple = mapping (one (codes "bind") (codes "$HOST:$PORT") (entry (codes "programs") programs nil))

-- The configuration that the test expects.
abbrev pub expected_a : Program
expected_a = record {
  command = record { cmd = codes "echo"; args = codes "a" ∷ codes "b" ∷ [] };
  env =
      (codes "a", record { value = none })
      ∷ (codes "b", record { value = some (codes "env_a") })
      ∷ [];
  http = some (record {
    port = 8080;
    path = codes "/some_path";
    https = true;
    strip_path = true;
    health_check = some (record { path = codes "/"; interval = 10 * second; grace = 60 * second });
  });
  retry = record { window = 5 * second; count = 2; delay = 5 * second };
  grace = 20 * second;
}

abbrev pub expected_c : Program
expected_c = record {
  command = record { cmd = codes "c"; args = [] };
  env = [];
  http = none;
  retry = default;
  grace = default_stop_grace;
}

abbrev pub expected_b : Program
expected_b = record expected_c {
  command = record { cmd = codes "b"; args = [] };
  http = some (record {
    port = 8080;
    path = codes "/some_path";
    https = false;
    strip_path = false;
    health_check = none;
  });
}

abbrev pub expected : Config
expected = record {
  bind = record { ip = codes "0.0.0.0"; port = 8000 };
  api_scope = codes "/blahaj";
  programs = (codes "a", expected_a) ∷ (codes "b", expected_b) ∷ (codes "c", expected_c) ∷ [];
}

abbrev pub expand : Str → Str ⊎ Str
expand s = inr (expanded s)

abbrev pub words : Str → List Str
words = split b' '

pub must_parse_simple : read_config nodes expand words simple ≡ some expected
unfolding nodes expanded split read_config program_of field values read_all read_command read_env
    read_http_relay read_health_check read_retry visit_command deserialize_env collect
    command_from_str command_from_words custom_command env_from_str read_program
must_parse_simple = refl

-- The name of an older field.
abbrev quick_fail : Node
quick_fail =
    mapping (one (codes "command") (codes "quick-fail") (one (codes "retries") (codes "3") nil))

unknown_ignored_example :
    read_program nodes expand words quick_fail
    ≡ read_program nodes expand words (mapping (one (codes "command") (codes "quick-fail") nil))
unfolding nodes str_eq
unknown_ignored_example =
    unknown_ignored nodes expand words quick_fail
      (mapping (one (codes "command") (codes "quick-fail") nil))
      ((codes "command", scalar (codes "quick-fail")) ∷ []) [] (codes "retries")
      (scalar (codes "3")) refl refl refl
