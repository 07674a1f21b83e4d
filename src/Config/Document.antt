-- ===== src/Config/Document.antt =====
-- src/config.rs: what its `Deserialize` attributes say of a configuration file. What `serde_yaml`
-- hands out of a node of the file, with the values that `serde_with_expand_env` and
-- `humantime_serde` read, is a parameter; an error is not told from another one.
use blahaj.Prelude.{
  ℕ, List, [], ◌∷◌, ◌⊎◌, inl, inr, Bool, false, ◌||◌, Option, none, some, if◌then◌else◌,
}
use blahaj.Prelude.Text.{Str, codes}
use blahaj.Text.{str_eq}
use blahaj.Map.{collect}
use blahaj.Config.{
  SocketAddr, HealthCheck, HttpRelay, Retry, Env, CommandLine, Program, Config, default_scope,
  default_stop_grace, default_retry_window, default_retry_count, default_retry_delay,
  default_health_interval, default_health_grace, default,
}
use blahaj.Config.Values.{visit_command, deserialize_env}

-- `entries` are those of a mapping, `option` tells a null from other nodes, `text` is a plain text;
-- the others are the values that are read through a crate.
pub record Deserializer (Node : Type 0) : Type 0 where
  pub entries : Node → Option (List (Str × Node))
  pub option : Node → Option Node
  pub text : Node → Option Str
  pub address : Node → Option SocketAddr
  pub string : Node → Option Str
  pub port : Node → Option ℕ
  pub size : Node → Option ℕ
  pub flag : Node → Option Bool
  pub duration : Node → Option ℕ

infixl 5 ◌>>=◌
abbrev pub ◌>>=◌ {ℓ κ} : {A : Type ℓ} {B : Type κ} → Option A → (A → Option B) → Option B
none >>= f = none
some a >>= f = f a

abbrev pub is_any : List Str → Str → Bool
is_any [] key = false
is_any (name ∷ names) key = str_eq name key || is_any names key

abbrev accepted : {A : Type 0} → Str ⊎ A → Option A
accepted (inl e) = none
accepted (inr a) = some a

module _ {Node : Type 0} where
  -- The values under a field's name or its alias.
  unfoldable pub values : List Str → List (Str × Node) → List Node
  values names [] = []
  values names ((key, v) ∷ entries) =
      let rest = values names entries in if is_any names key then v ∷ rest else rest

  -- A field that is missing may have a default; one that is there twice is refused.
  abbrev pub one_value : {A : Type 0} → Option A → (Node → Option A) → List Node → Option A
  one_value missing read [] = missing
  one_value missing read (v ∷ []) = read v
  one_value missing read (_ ∷ _ ∷ _) = none

  unfoldable pub field :
      {A : Type 0} → Option A → (Node → Option A) → List Str → List (Str × Node) → Option A
  field missing read names entries = one_value missing read (values names entries)

  -- The values of a map.
  unfoldable pub read_all :
      {A : Type 0} → (Node → Option A) → List (Str × Node) → Option (List (Str × A))
  read_all read [] = some []
  read_all read ((key, v) ∷ entries) = do
    a ← read v
    rest ← read_all read entries
    some ((key, a) ∷ rest)

-- `expand` and `words` are those of the values.
module _ {Node : Type 0} (de : Deserializer Node) (expand : Str → Str ⊎ Str)
    (words : Str → List Str) where
  unfoldable pub read_map : {A : Type 0} → (Node → Option A) → Node → Option (List (Str × A))
  unfolding read_all
  read_map read node = do
    entries ← de.entries node
    values ← read_all read entries
    some (collect values)

  unfoldable pub optional : {A : Type 0} → (Node → Option A) → Node → Option (Option A)
  optional read node = elim (de.option node) [
    | none ↦ some none
    | some v ↦ do a ← read v; some (some a)
  ]

  unfoldable pub read_command : Node → Option CommandLine
  unfolding visit_command
  read_command node = do v ← de.text node; accepted (visit_command expand words v)

  unfoldable pub read_env : Node → Option Env
  unfolding deserialize_env
  read_env node = elim (de.option node) [
    | none ↦ accepted (deserialize_env expand none)
    | some given ↦ do v ← de.text given; accepted (deserialize_env expand (some v))
  ]

  unfoldable pub read_health_check : Node → Option HealthCheck
  read_health_check node = do
    entries ← de.entries node
    path ← field none de.string (codes "path" ∷ []) entries
    interval ← field (some default_health_interval) de.duration (codes "interval" ∷ []) entries
    grace ← field (some default_health_grace) de.duration (codes "grace" ∷ []) entries
    some (record { path = path; interval = interval; grace = grace })

  -- The names are in kebab case.
  unfoldable pub read_http_relay : Node → Option HttpRelay
  unfolding optional read_health_check
  read_http_relay node = do
    entries ← de.entries node
    port ← field none de.port (codes "port" ∷ []) entries
    path ← field none de.string (codes "path" ∷ []) entries
    https ← field (some false) de.flag (codes "https" ∷ []) entries
    strip_path ← field (some false) de.flag (codes "strip-path" ∷ []) entries
    health_check ←
        field (some none) (optional read_health_check) (codes "health-check" ∷ []) entries
    some (record {
      port = port;
      path = path;
      https = https;
      strip_path = strip_path;
      health_check = health_check;
    })

  unfoldable pub read_retry : Node → Option Retry
  read_retry node = do
    entries ← de.entries node
    window ← field (some default_retry_window) de.duration (codes "window" ∷ []) entries
    count ← field (some default_retry_count) de.size (codes "count" ∷ []) entries
    delay ← field (some default_retry_delay) de.duration (codes "delay" ∷ []) entries
    some (record { window = window; count = count; delay = delay })

  unfoldable pub program_of : List (Str × Node) → Option Program
  unfolding field read_map optional read_command read_env read_http_relay read_retry default
  program_of entries = do
    command ← field none read_command (codes "command" ∷ []) entries
    env ← field (some []) (read_map read_env) (codes "env" ∷ codes "environment" ∷ []) entries
    http ← field (some none) (optional read_http_relay) (codes "http" ∷ []) entries
    retry ← field (some default) read_retry (codes "retry" ∷ []) entries
    grace ← field (some default_stop_grace) de.duration (codes "grace" ∷ []) entries
    some (record { command = command; env = env; http = http; retry = retry; grace = grace })

  unfoldable pub read_program : Node → Option Program
  unfolding program_of
  read_program node = do entries ← de.entries node; program_of entries

  unfoldable pub read_config : Node → Option Config
  unfolding field read_map read_program
  read_config node = do
    entries ← de.entries node
    bind ← field none de.address (codes "bind" ∷ []) entries
    api_scope ← field (some default_scope) de.string (codes "api_scope" ∷ []) entries
    programs ← field none (read_map read_program) (codes "programs" ∷ []) entries
    some (record { bind = bind; api_scope = api_scope; programs = programs })
