-- ===== src/Main/Starting/Tests.antt =====
-- `main` (src/main.rs) with the file of tests/simple.yaml, and with one that cannot be opened.
use mathlib.Core.List.{Memᴰ}
use blahaj.Prelude.{[], ◌∷◌, ◌≡◌, ◌↔◌, refl, ◌⊎◌, inl, inr, none, some, if◌then◌else◌, arith}
use blahaj.Prelude.Text.{Str, codes}
use blahaj.Text.{str_eq}
use blahaj.Map.{lookup}
use blahaj.Config.{Config, Program}
use blahaj.Config.Document.{values, read_program}
use blahaj.Config.Samples.{
  Node, nodes, simple, programs, program_a, program_b, program_c, expand, words, expected,
  bind_node, must_parse_simple,
}
use blahaj.CtrlcHandler
use blahaj.Supervisor.Fleet
use blahaj.Main.{services, proxy_config}
use blahaj.Main.Launch.{Report, Host, Launched, launch, from_reader}
use blahaj.Main.Starting.{launched_iff, launch-inl_iff}

abbrev host : Host Str Node Str
host = record {
  install = inr tt;
  start_log = λ level. inr tt;
  open_file =
      λ path. if str_eq path (codes "simple.yaml") then inr path else inl (codes "No such file");
  parse = λ f. inr simple;
  no_config = λ node. codes "no configuration";
  listen = λ bind services proxy. inr (codes "server");
}

-- The address of a caretaker is its name, with the program's.
abbrev start_caretaker : Str → Program → Str × Str
start_caretaker name program = (name, program.command.cmd)

abbrev launched : Str → Report ⊎ Launched (Str × Str) (Unit {0}) Str
launched = launch host nodes expand words start_caretaker

abbrev up : Launched (Str × Str) (Unit {0}) Str
up = record {
  supervisor = Fleet.start start_caretaker expected.programs;
  signal_handler = CtrlcHandler.new;
  serving_at = expected.bind;
  server = codes "server";
}

comes_up : launched (codes "simple.yaml") ≡ inr up
unfolding launch from_reader str_eq
comes_up = ground (arith, must_parse_simple)

launched_iff_example : (lookup (codes "c") up.supervisor.actors ≡ some (codes "c", codes "c")) ↔ (
    (v : Node) × (p : Program) × Memᴰ {A = Str × Node}
      (codes "c", v)
      ((codes "a", program_a) ∷ (codes "b", program_b) ∷ (codes "c", program_c) ∷ [])
    × (read_program nodes expand words v ≡ some p)
    × (start_caretaker (codes "c") p ≡ (codes "c", codes "c")))
unfolding nodes values str_eq
launched_iff_example =
    launched_iff host nodes expand words start_caretaker (codes "simple.yaml") (codes "simple.yaml")
      simple programs ((codes "bind", bind_node) ∷ (codes "programs", programs) ∷ [])
      ((codes "a", program_a) ∷ (codes "b", program_b) ∷ (codes "c", program_c) ∷ []) up (codes "c")
      (codes "c", codes "c") refl refl refl refl refl
      (
        ((λ e. ground (arith, e)), ((λ e. ground (arith, e)), tt)),
        (((λ e. ground (arith, e)), tt), (tt, tt)),
      )
      comes_up

abbrev missing : Report
missing = record {
  context = some (codes "Failed to read config file.");
  cause = codes "No such file";
}

launch-inl_iff_example : (launched (codes "other.yaml") ≡ inl missing) ↔ (
    ((e : Str) × (host.open_file (codes "other.yaml") ≡ inl e)
      × (missing ≡ record { context = some (codes "Failed to read config file."); cause = e }))
    ⊎ (((f : Str) × (e : Str) × (host.open_file (codes "other.yaml") ≡ inr f)
          × (from_reader host nodes expand words f ≡ inl e)
          × (missing ≡ record { context = some (codes "Illegal config format."); cause = e }))
        ⊎ ((f : Str) × (config : Config) × (e : Str) × (host.open_file (codes "other.yaml") ≡ inr f)
            × (from_reader host nodes expand words f ≡ inr config)
            × (host.listen config.bind (services config) (proxy_config config) ≡ inl e)
            × (missing ≡ record { context = none; cause = e }))))
launch-inl_iff_example =
    launch-inl_iff host nodes expand words start_caretaker (codes "other.yaml") missing refl refl
