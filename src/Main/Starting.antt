-- ===== src/Main/Starting.antt =====
-- What src/main.rs starts for a configuration file.
mod Tests
use mathlib.Core.List.{Memᴰ}
use blahaj.Prelude.{
  List, [], ◌∷◌, ◌≡◌, ◌↔◌, refl, sym, ◌∙◌, ap, ◌⊎◌, inl, inr, Bool, true, false, Option, none, some,
  Option-cases, Bool-cases, Sum-cases, if◌then◌else◌, map, arith,
}
use blahaj.Prelude.Text.{Str, codes}
use blahaj.Text.{str_eq}
use blahaj.Text.Laws.{str_eq_iff}
use blahaj.Map.{lookup}
use blahaj.Map.Laws.{DistinctKeys}
use blahaj.Config.{Config, Program}
use blahaj.Config.Document.{Deserializer, values, read_config, read_program}
use blahaj.Config.Programs.{config_programs_iff}
use blahaj.Supervisor.Fleet.{start}
use blahaj.Main.{services, proxy_config}
use blahaj.Main.Launch.{Report, Host, Launched, from_reader, launch}

-- The address under a name is that of the caretaker that was started with the program of that name.
module _ {Addr : Type 0} (start_caretaker : Str → Program → Addr) where
  begun : Str → Option Program → Option Addr
  begun name none = none
  begun name (some p) = some (start_caretaker name p)

  lookup-start :
      (name : Str) (programs : List (Str × Program))
      → lookup name (start start_caretaker programs).actors ≡ begun name (lookup name programs)
  unfolding start lookup begun
  lookup-start name [] = refl
  lookup-start name ((key, p) ∷ programs) = elim (Bool-cases (str_eq key name)) [
    | inl same ↦ rw (same, (str_eq_iff key name).0 same) refl
    | inr other ↦ rw (other) (lookup-start name programs)
  ]

  lookup-start_iff :
      (name : Str) (programs : List (Str × Program)) (a : Addr)
      → (lookup name (start start_caretaker programs).actors ≡ some a)
        ↔ ((p : Program) × (lookup name programs ≡ some p) × (start_caretaker name p ≡ a))
  unfolding begun
  lookup-start_iff name programs a = rw (lookup-start name programs) (
    (λ h. elim (Option-cases (lookup name programs)) [
      | inl none_there ↦ ground (arith, none_there, h)
      | inr (p, there) ↦ (p, there, ground (arith, there, h))
    ]),
    (λ (p, there, e). ground (arith, there, e)),
  )

module _ {File Node Server Addr Handle : Type 0} (host : Host File Node Server)
    (de : Deserializer Node) (expand : Str → Str ⊎ Str) (words : Str → List Str)
    (start_caretaker : Str → Program → Addr) where
  -- What comes up is made of the configuration that is read of the file.
  launch-config :
      (path : Str) (f : File) (node : Node) (l : Launched Addr Handle Server)
      → host.open_file path ≡ inr f
      → host.parse f ≡ inr node
      → launch host de expand words start_caretaker path ≡ inr l
      → (config : Config) × (read_config de expand words node ≡ some config)
        × (l.supervisor ≡ start start_caretaker config.programs)
  unfolding launch from_reader
  launch-config path f node l opens parses e =
      elim (Option-cases (read_config de expand words node)) [
        | inl refused ↦ ground (arith, opens, parses, refused, e)
        | inr (config, reads) ↦ (config, reads, ground (arith, opens, parses, reads, e))
      ]

  -- Where `main` comes up with a configuration file that has each program's name once: there is a
  -- caretaker under a name exactly when the file has a value under that name of which a program is
  -- read, and it is the one that was started with that program. No program of the file is left out,
  -- and nothing else is started.
  pub launched_iff :
      (path : Str) (f : File) (node programs : Node) (entries listed : List (Str × Node))
      (l : Launched Addr Handle Server) (name : Str) (a : Addr)
      → host.open_file path ≡ inr f
      → host.parse f ≡ inr node
      → de.entries node ≡ some entries
      → values (codes "programs" ∷ []) entries ≡ programs ∷ []
      → de.entries programs ≡ some listed
      → DistinctKeys listed
      → launch host de expand words start_caretaker path ≡ inr l
      → (lookup name l.supervisor.actors ≡ some a) ↔ (
          (v : Node) × (p : Program) × Memᴰ (name, v) listed
          × (read_program de expand words v ≡ some p)
          × (start_caretaker name p ≡ a))
  launched_iff path f node programs entries listed l name a opens parses found one inside distinct
        e =
      let (config, reads, same) = launch-config path f node l opens parses e in
      let holds = lookup-start_iff start_caretaker name config.programs a in
      let listed_iff = λ (p : Program).
        config_programs_iff de expand words node programs config entries listed name p reads found
          one inside distinct in
      (
        (λ h.
            let (p, there, starts) = holds.0 (rw⁻¹ (same) h) in
            let (v, m, is) = (listed_iff p).0 there in (v, p, m, is, starts)),
        (λ (v, p, m, is, starts). rw (same) (holds.1 (p, (listed_iff p).1 (v, m, is), starts))),
      )

  -- Where the reports and the log can be set up: `main` ends before it serves exactly when the file
  -- cannot be opened, or is no configuration, or the server cannot listen. Its error is that of the
  -- first of these that fails, and names it in the first two cases.
  pub launch-inl_iff :
      (path : Str) (r : Report)
      → host.install ≡ inr tt
      → host.start_log (codes "info") ≡ inr tt
      → (launch host de expand words {Handle = Handle} start_caretaker path ≡ inl r) ↔ (
          ((e : Str) × (host.open_file path ≡ inl e)
            × (r ≡ record { context = some (codes "Failed to read config file."); cause = e }))
          ⊎ (((f : File) × (e : Str) × (host.open_file path ≡ inr f)
                × (from_reader host de expand words f ≡ inl e)
                × (r ≡ record { context = some (codes "Illegal config format."); cause = e }))
              ⊎ ((f : File) × (config : Config) × (e : Str) × (host.open_file path ≡ inr f)
                  × (from_reader host de expand words f ≡ inr config)
                  × (host.listen config.bind (services config) (proxy_config config) ≡ inl e)
                  × (r ≡ record { context = none; cause = e }))))
  unfolding launch
  launch-inl_iff path r installs logs = (
    (λ h. elim (Sum-cases (host.open_file path)) [
      | inl (e, shut) ↦ inl (e, shut, ground (arith, installs, logs, shut, h))
      | inr (f, opens) ↦ elim (Sum-cases (from_reader host de expand words f)) [
        | inl (e, illegal) ↦
            inr (inl (f, e, opens, illegal, ground (arith, installs, logs, opens, illegal, h)))
        | inr (config, legal) ↦
            elim (Sum-cases (host.listen config.bind (services config) (proxy_config config))) [
              | inl (e, taken) ↦ inr (
                  inr (
                    f,
                    config,
                    e,
                    opens,
                    legal,
                    taken,
                    ground (arith, installs, logs, opens, legal, taken, h),
                  ))
              | inr (server, listens) ↦ ground (arith, installs, logs, opens, legal, listens, h)
            ]
      ]
    ]),
    (λ h. elim h [
      | inl (e, shut, is) ↦ ground (arith, installs, logs, shut, is)
      | inr (inl (f, e, opens, illegal, is)) ↦ ground (arith, installs, logs, opens, illegal, is)
      | inr (inr (f, config, e, opens, legal, taken, is)) ↦
          ground (arith, installs, logs, opens, legal, taken, is)
    ]),
  )
