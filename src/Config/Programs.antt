-- ===== src/Config/Programs.antt =====
-- The programs that src/config.rs makes of a configuration file.
use mathlib.Core.List.{Memᴰ}
use blahaj.Prelude.{
  List, [], ◌∷◌, ◌≡◌, ◌↔◌, ◌⊎◌, inl, inr, Option, some, Option-cases, subst, arith,
}
use blahaj.Prelude.Text.{Str, codes}
use blahaj.Map.{lookup, collect}
use blahaj.Map.Laws.{Absent, DistinctKeys, lookup-collect_iff}
use blahaj.Config.{Program, Config}
use blahaj.Config.Document.{
  Deserializer, values, field, read_all, read_map, read_program, read_config,
}

module _ {Node A : Type 0} (read : Node → Option A) where
  -- What is read of a map, from its first entry on.
  read_all-cases :
      (key : Str) (v : Node) (entries : List (Str × Node)) (out : List (Str × A))
      → read_all read ((key, v) ∷ entries) ≡ some out
      → (a : A) × (rest : List (Str × A)) × (read v ≡ some a)
        × (read_all read entries ≡ some rest)
        × (out ≡ (key, a) ∷ rest)
  unfolding read_all
  read_all-cases key v entries out e = elim (Option-cases (read v)) [
    | inl refused ↦ ground (arith, refused, e)
    | inr (a, found) ↦ elim (Option-cases (read_all read entries)) [
      | inl refused ↦ ground (arith, found, refused, e)
      | inr (rest, others) ↦ (a, rest, found, others, ground (arith, found, others, e))
    ]
  ]

  read_all-Absent :
      (k : Str) (entries : List (Str × Node)) (out : List (Str × A))
      → read_all read entries ≡ some out
      → Absent k entries
      → Absent k out
  unfolding read_all
  read_all-Absent k [] out e h = ground (arith, e)
  read_all-Absent k ((key, v) ∷ entries) out e (ne, h) =
      let (a, rest, found, others, same) = read_all-cases key v entries out e in
      rw (same) (ne, read_all-Absent k entries rest others h)

  read_all-DistinctKeys :
      (entries : List (Str × Node)) (out : List (Str × A))
      → read_all read entries ≡ some out
      → DistinctKeys entries
      → DistinctKeys out
  unfolding read_all
  read_all-DistinctKeys [] out e h = ground (arith, e)
  read_all-DistinctKeys ((key, v) ∷ entries) out e (absent, h) =
      let (a, rest, found, others, same) = read_all-cases key v entries out e in
      rw (same) (
        read_all-Absent key entries rest others absent,
        read_all-DistinctKeys entries rest others h,
      )

  -- What is read of a map is what is read of its values, under their names.
  mem-read_all :
      (name : Str) (a : A) (entries : List (Str × Node)) (out : List (Str × A))
      → read_all read entries ≡ some out
      → Memᴰ (name, a) out
      → (v : Node) × Memᴰ (name, v) entries × (read v ≡ some a)
  unfolding read_all
  mem-read_all name a [] out e m =
      let same : out ≡ [] = ground (arith, e) in elim (subst (Memᴰ (name, a)) same m) [ ]
  mem-read_all name a ((key, v) ∷ entries) out e m =
      let (b, rest, found, others, same) = read_all-cases key v entries out e in
      elim (subst (Memᴰ (name, a)) same m) [
        | Memᴰ.head p ↦ (v, Memᴰ.head (ground (arith, p)), ground (arith, p, found))
        | Memᴰ.tail r ↦
            let (w, listed, reads) = mem-read_all name a entries rest others r in
            (w, Memᴰ.tail listed, reads)
      ]

  read_all-mem :
      (name : Str) (v : Node) (a : A) (entries : List (Str × Node)) (out : List (Str × A))
      → read_all read entries ≡ some out
      → Memᴰ (name, v) entries
      → read v ≡ some a
      → Memᴰ (name, a) out
  read_all-mem name v a [] out e m reads = elim m [ ]
  read_all-mem name v a ((key, w) ∷ entries) out e (Memᴰ.head p) reads =
      let (b, rest, found, others, same) = read_all-cases key w entries out e in
      rw (same) (Memᴰ.head (ground (arith, p, found, reads)))
  read_all-mem name v a ((key, w) ∷ entries) out e (Memᴰ.tail m) reads =
      let (b, rest, found, others, same) = read_all-cases key w entries out e in
      rw (same) (Memᴰ.tail (read_all-mem name v a entries rest others m reads))

module _ {Node : Type 0} (de : Deserializer Node) (expand : Str → Str ⊎ Str)
    (words : Str → List Str) where
  abbrev program : Node → Option Program
  program = read_program de expand words

  -- The programs of a configuration are read from the one value of the field.
  config_programs :
      (node programs : Node) (config : Config) (entries : List (Str × Node))
      → read_config de expand words node ≡ some config
      → de.entries node ≡ some entries
      → values (codes "programs" ∷ []) entries ≡ programs ∷ []
      → read_map de expand words program programs ≡ some config.programs
  unfolding read_config field
  config_programs node programs config entries e found one = ground (arith, e, found, one)

  collected :
      (programs : Node) (out : List (Str × Program)) (listed : List (Str × Node))
      → read_map de expand words program programs ≡ some out
      → de.entries programs ≡ some listed
      → (all : List (Str × Program)) × (read_all program listed ≡ some all) × (out ≡ collect all)
  unfolding read_map
  collected programs out listed e found = elim (Option-cases (read_all program listed)) [
    | inl refused ↦ ground (arith, e, found, refused)
    | inr (all, reads) ↦ (all, reads, ground (arith, e, found, reads))
  ]

  -- Where a configuration is read of a file that has each program's name once: a program is in the
  -- configuration under a name exactly when the file has a value under that name of which it is
  -- read. None is left out, and none is made up.
  pub config_programs_iff :
      (node programs : Node) (config : Config) (entries listed : List (Str × Node)) (name : Str)
      (p : Program)
      → read_config de expand words node ≡ some config
      → de.entries node ≡ some entries
      → values (codes "programs" ∷ []) entries ≡ programs ∷ []
      → de.entries programs ≡ some listed
      → DistinctKeys listed
      → (lookup name config.programs ≡ some p)
        ↔ ((v : Node) × Memᴰ (name, v) listed × (read_program de expand words v ≡ some p))
  config_programs_iff node programs config entries listed name p e found one inside distinct =
      let (all, reads, same) =
        collected programs config.programs listed
          (config_programs node programs config entries e found one) inside in
      let holds =
        lookup-collect_iff name p all (read_all-DistinctKeys program listed all reads distinct) in
      (
        (λ h. mem-read_all program name p listed all reads (holds.0 (rw⁻¹ (same) h))),
        (λ (v, m, h). rw (same) (holds.1 (read_all-mem program name v p listed all reads m h))),
      )
