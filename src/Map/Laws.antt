-- ===== src/Map/Laws.antt =====
-- Lookup after insertion, and what a collected map holds.
use mathlib.Core.List.{Memᴰ}
use mathlib.Core.Option.{some-injective, none-ne-some}
use blahaj.Prelude.{
  List, [], ◌∷◌, ◌≡◌, ◌≢◌, refl, ◌↔◌, ◌⊎◌, inl, inr, some, if◌then◌else◌, All, arith, Bool-cases,
  ap, sym, ◌∙◌,
}
use blahaj.Prelude.Text.{Str}
use blahaj.Text.{str_eq}
use blahaj.Text.Laws.{str_eq_iff, str_eq_refl}
use blahaj.Map.{lookup, insert, extend, collect}

module _ {ℓ} {V : Type ℓ} where
  pub lookup-insert :
      (k j : Str) (v : V) (m : List (Str × V))
      → lookup j (insert k v m) ≡ (if str_eq k j then some v else lookup j m)
  unfolding lookup insert
  lookup-insert k j v [] = refl
  lookup-insert k j v ((i, w) ∷ m) =
      ground (arith, str_eq_iff k j, str_eq_iff i k, str_eq_iff i j, lookup-insert k j v m)

  -- No entry has the key.
  abbrev pub Absent : Str → List (Str × V) → Type 0
  Absent k = All (λ e. e.0 ≢ k)

  -- No two entries have one key.
  abbrev pub DistinctKeys : List (Str × V) → Type 0
  DistinctKeys [] = Unit
  DistinctKeys (e ∷ es) = Absent e.0 es × DistinctKeys es

  pub lookup-insert_self : (k : Str) (v : V) (m : List (Str × V)) → lookup k (insert k v m) ≡ some v
  lookup-insert_self k v m = lookup-insert k k v m ∙ rw (str_eq_refl k)

  lookup-extend-Absent :
      (k : Str) (m es : List (Str × V)) → Absent k es → lookup k (extend m es) ≡ lookup k m
  unfolding extend
  lookup-extend-Absent k m [] h = refl
  lookup-extend-Absent k m ((j, v) ∷ es) (ne, h) =
      lookup-extend-Absent k (insert j v m) es h
      ∙ ground (arith, lookup-insert j k v m, str_eq_iff j k)

  lookup-extend_mem :
      (k : Str) (v : V) (m es : List (Str × V))
      → DistinctKeys es
      → Memᴰ (k, v) es
      → lookup k (extend m es) ≡ some v
  unfolding extend
  lookup-extend_mem k v m [] d r = elim r [ ]
  lookup-extend_mem k v m ((j, w) ∷ es) (absent, d) (Memᴰ.head e) =
      let same_key : k ≡ j = ap (λ p. p.0) e in
      let same_value : v ≡ w = ap (λ p. p.1) e in
      rw (same_key, same_value)
        (lookup-extend-Absent j (insert j w m) es absent ∙ lookup-insert_self j w m)
  lookup-extend_mem k v m ((j, w) ∷ es) (absent, d) (Memᴰ.tail r) =
      lookup-extend_mem k v (insert j w m) es d r

  pair_path : {k j : Str} {v w : V} → k ≡ j → v ≡ w → ◌≡◌ {A = Str × V} (k, v) (j, w)
  pair_path p q = λ i. (p i, q i)

  insert_cases :
      (k j : Str) (v w : V) (m es : List (Str × V))
      → lookup k (insert j w m) ≡ some v
      → (lookup k m ≡ some v) ⊎ Memᴰ (k, v) ((j, w) ∷ es)
  insert_cases k j v w m es h = elim (Bool-cases (str_eq j k)) [
    | inl same ↦
        let e : some w ≡ some v = sym (lookup-insert j k w m ∙ rw same) ∙ h in
        inr (Memᴰ.head (pair_path (sym ((str_eq_iff j k).0 same)) (some-injective v w (sym e))))
    | inr other ↦ inl (sym (lookup-insert j k w m ∙ rw other) ∙ h)
  ]

  lookup-extend_cases :
      (k : Str) (v : V) (m es : List (Str × V))
      → lookup k (extend m es) ≡ some v
      → (lookup k m ≡ some v) ⊎ Memᴰ (k, v) es
  unfolding extend
  lookup-extend_cases k v m [] h = inl h
  lookup-extend_cases k v m ((j, w) ∷ es) h = elim (lookup-extend_cases k v (insert j w m) es h) [
    | inl old ↦ insert_cases k j v w m es old
    | inr r ↦ inr (Memᴰ.tail r)
  ]

  -- A map that is collected holds no other entries.
  pub mem-collect :
      (k : Str) (v : V) (es : List (Str × V)) → lookup k (collect es) ≡ some v → Memᴰ (k, v) es
  unfolding collect lookup
  mem-collect k v es h = elim (lookup-extend_cases k v [] es h) [
    | inl e ↦ absurd (none-ne-some v e)
    | inr r ↦ r
  ]

  -- What a map holds that is collected from entries with distinct keys: exactly those entries.
  pub lookup-collect_iff :
      (k : Str) (v : V) (es : List (Str × V))
      → DistinctKeys es
      → (lookup k (collect es) ≡ some v) ↔ Memᴰ (k, v) es
  unfolding collect
  lookup-collect_iff k v es d = (mem-collect k v es, lookup-extend_mem k v [] es d)
