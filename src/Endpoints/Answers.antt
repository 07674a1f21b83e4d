-- ===== src/Endpoints/Answers.antt =====
-- What the endpoints of src/endpoints.rs tell of the programs that src/supervisor/mod.rs asks.
use mathlib.Core.List.{Memᴰ}
use mathlib.Core.Sum.{inl-ne-inr, inr-injective}
use blahaj.Prelude.{
  Sum-cases, List, [], ◌∷◌, ◌≡◌, ◌≢◌, ◌↔◌, refl, sym, ◌∙◌, ap, subst, true, false, ◌⊎◌, inl, inr,
  map, All, arith, some,
}
use blahaj.Prelude.Text.{Str, codes}
use blahaj.Map
use blahaj.Map.Laws.{DistinctKeys, Absent, lookup-collect_iff}
use blahaj.Supervisor.Lifecycle.{Lifecycle, running, healthy}
use blahaj.Supervisor.Fleet.{Joining, Supervisor, named_answer, handle_get_status_all}
use blahaj.Endpoints.{
  is_healthy, bad_services, health_of, health, status, ok_code, debug_lifecycle, debug_health,
  string, Value, boolean, strings, internal_server_error,
}

is_healthy_iff : (l : Lifecycle) → (is_healthy l ≡ true) ↔ (l ≡ running healthy)
unfolding is_healthy
is_healthy_iff l = ground arith

bad_services-cons :
    (name : Str) (l : Lifecycle) (rest : List (Str × Lifecycle))
    → ((l ≡ running healthy) × (bad_services ((name, l) ∷ rest) ≡ bad_services rest))
      ⊎ ((l ≢ running healthy) × (bad_services ((name, l) ∷ rest) ≡ name ∷ bad_services rest))
unfolding bad_services
bad_services-cons name l rest = ground (arith, is_healthy_iff l)

-- The program has a state other than running and healthy.
abbrev pub IsBad : Str → List (Str × Lifecycle) → Type 0
IsBad name statuses =
    (lifecycle : Lifecycle) × Memᴰ (name, lifecycle) statuses × (lifecycle ≢ running healthy)

IsBad-mem :
    (name : Str) (statuses : List (Str × Lifecycle))
    → Memᴰ name (bad_services statuses)
    → IsBad name statuses
unfolding bad_services
IsBad-mem name [] r = elim r [ ]
IsBad-mem name ((n, l) ∷ rest) r = elim (bad_services-cons n l rest) [
  | inl (good, same) ↦
      let (k, m, ne) = IsBad-mem name rest (subst (Memᴰ name) same r) in (k, Memᴰ.tail m, ne)
  | inr (bad, listed) ↦ elim (subst (Memᴰ name) listed r) [
    | Memᴰ.head e ↦ (l, Memᴰ.head (λ i. (e i, l)), bad)
    | Memᴰ.tail m ↦ let (k, m2, ne) = IsBad-mem name rest m in (k, Memᴰ.tail m2, ne)
  ]
]

mem-bad_services :
    (name : Str) (statuses : List (Str × Lifecycle))
    → IsBad name statuses
    → Memᴰ name (bad_services statuses)
unfolding bad_services
mem-bad_services name [] (k, r, ne) = elim r [ ]
mem-bad_services name ((n, l) ∷ rest) (k, Memᴰ.head e, ne) = elim (bad_services-cons n l rest) [
  | inl (good, same) ↦ absurd (ne (ap (λ p. p.1) e ∙ good))
  | inr (bad, listed) ↦ subst (Memᴰ name) (sym listed) (Memᴰ.head (ap (λ p. p.0) e))
]
mem-bad_services name ((n, l) ∷ rest) (k, Memᴰ.tail r, ne) =
    let m = mem-bad_services name rest (k, r, ne) in
    elim (bad_services-cons n l rest) [
      | inl (good, same) ↦ subst (Memᴰ name) (sym same) m
      | inr (bad, listed) ↦ subst (Memᴰ name) (sym listed) (Memᴰ.tail m)
    ]

healthy-All :
    (statuses : List (Str × Lifecycle))
    → ((health_of (bad_services statuses)).code ≡ ok_code)
      ↔ All (λ s. s.1 ≡ running healthy) statuses
unfolding bad_services is_healthy health_of
healthy-All [] = ground arith
healthy-All (s ∷ rest) = ground (arith, healthy-All rest)

health_of-code :
    (bad : List Str)
    → ((health_of bad).code ≡ ok_code) ⊎ ((health_of bad).code ≡ internal_server_error)
unfolding health_of
health_of-code [] = inl refl
health_of-code (_ ∷ _) = inr refl

health_of-body :
    (name : Str) (bad : List Str)
    → Memᴰ name bad
    → (health_of bad).body
      ≡ (codes "healthy", boolean false) ∷ (codes "bad_services", strings bad) ∷ []
unfolding health_of
health_of-body name [] m = elim m [ ]
health_of-body name (_ ∷ _) m = refl

-- The body of `status`.
abbrev shown : Str × Lifecycle → Str × Value
shown s = (s.0, string (debug_lifecycle s.1))

Absent-shown :
    (name : Str) (statuses : List (Str × Lifecycle))
    → Absent name statuses
    → Absent name (map shown statuses)
Absent-shown name [] h = tt
Absent-shown name (s ∷ rest) (ne, h) = (ne, Absent-shown name rest h)

DistinctKeys-shown :
    (statuses : List (Str × Lifecycle)) → DistinctKeys statuses → DistinctKeys (map shown statuses)
DistinctKeys-shown [] d = tt
DistinctKeys-shown (s ∷ rest) (absent, d) =
    (Absent-shown s.0 rest absent, DistinctKeys-shown rest d)

mem-shown :
    (s : Str × Lifecycle) (statuses : List (Str × Lifecycle))
    → Memᴰ s statuses
    → Memᴰ (shown s) (map shown statuses)
mem-shown s [] m = elim m [ ]
mem-shown s (_ ∷ rest) (Memᴰ.head e) = Memᴰ.head (ap shown e)
mem-shown s (_ ∷ rest) (Memᴰ.tail m) = Memᴰ.tail (mem-shown s rest m)

debug_lifecycle-injective : (l k : Lifecycle) → debug_lifecycle l ≡ debug_lifecycle k → l ≡ k
unfolding debug_lifecycle debug_health
debug_lifecycle-injective l k e = ground arith

shown-injective : (s r : Str × Lifecycle) → shown s ≡ shown r → s ≡ r
shown-injective (n, l) (m, k) e =
    let texts : debug_lifecycle l ≡ debug_lifecycle k = ground (arith, ap (λ p. p.1) e) in
    let same : l ≡ k = debug_lifecycle-injective l k texts in λ i. ((e i).0, same i)

shown-mem :
    (s : Str × Lifecycle) (statuses : List (Str × Lifecycle))
    → Memᴰ (shown s) (map shown statuses)
    → Memᴰ s statuses
shown-mem s [] m = elim m [ ]
shown-mem s (r ∷ rest) (Memᴰ.head e) = Memᴰ.head (shown-injective s r e)
shown-mem s (_ ∷ rest) (Memᴰ.tail m) = Memᴰ.tail (shown-mem s rest m)

module _ {Error Addr : Type 0} (send : Addr → Error ⊎ Lifecycle) where
  abbrev AllHealthy : List (Str × Addr) → Type 0
  AllHealthy = All (λ a. send a.1 ≡ inr (running healthy))

  abbrev answers : List (Str × Addr) → List (Error ⊎ (Str × Lifecycle))
  answers = map (λ a. named_answer a.0 (send a.1))

  -- Every caretaker answers, or one does not.
  record Answered (actors : List (Str × Addr)) : Type 0 where
    statuses : List (Str × Lifecycle)
    joined : answers actors ≡ map inr statuses
    healthy_iff : All (λ s. s.1 ≡ running healthy) statuses ↔ AllHealthy actors

  record Unanswered (actors : List (Str × Addr)) : Type 0 where
    error : Error
    failed : Memᴰ (inl error) (answers actors)
    unhealthy : ¬ AllHealthy actors

  answers-cases : (actors : List (Str × Addr)) → Answered actors ⊎ Unanswered actors
  unfolding named_answer
  answers-cases [] = inl (record { statuses = []; joined = refl; healthy_iff = (λ h. h, λ h. h) })
  answers-cases ((name, addr) ∷ rest) = elim (Sum-cases (send addr)) [
    | inl (e, refused) ↦ inr (record {
      error = e;
      failed = rw (refused) (Memᴰ.head refl);
      unhealthy = λ h. inl-ne-inr (sym refused ∙ h.0);
    })
    | inr (l, answered) ↦ elim (answers-cases rest) [
      | inr bad ↦ inr (record {
        error = bad.error;
        failed = Memᴰ.tail bad.failed;
        unhealthy = λ h. bad.unhealthy h.1;
      })
      | inl good ↦ inl (record {
        statuses = (name, l) ∷ good.statuses;
        joined = rw (answered, good.joined) refl;
        healthy_iff = (
          (λ h. (answered ∙ ap inr h.0, good.healthy_iff.0 h.1)),
          (λ h. (inr-injective _ _ (sym answered ∙ h.0), good.healthy_iff.1 h.1)),
        );
      })
    ]
  ]

-- `health` answers 200 for a reply of the supervisor exactly when `P`, and else 500.
abbrev Tells : {Error : Type 0} → (Error → Str) → Type 0 → Error ⊎ List (Str × Lifecycle) → Type 0
Tells to_string P reply =
    let response = health to_string (inr reply) in
    ((response.code ≡ ok_code) ↔ P)
    × ((response.code ≡ ok_code) ⊎ (response.code ≡ internal_server_error))

good-Tells :
    {Error : Type 0} (to_string : Error → Str) (P : Type 0) (statuses : List (Str × Lifecycle))
    → All (λ s. s.1 ≡ running healthy) statuses ↔ P
    → Tells to_string P (inr statuses)
unfolding health health_of
good-Tells to_string P statuses healthy_iff =
    let (there, back) = healthy-All statuses in
    (
      (λ h. healthy_iff.0 (there h), λ h. back (healthy_iff.1 h)),
      elim (health_of-code (bad_services statuses)) [ inl e ↦ inl e | inr e ↦ inr e ],
    )

bad-Tells :
    {Error : Type 0} (to_string : Error → Str) (P : Type 0) (e : Error)
    → ¬ P
    → Tells to_string P (inl e)
unfolding health
bad-Tells to_string P e refused =
    ((λ h. absurd (omega (arith, h)), λ h. absurd (refused h)), inr refl)

-- Where the supervisor answers, `health` answers 200 exactly when every caretaker answers that its
-- program is running and healthy. It answers 500 otherwise, also when a caretaker does not answer.
pub health_ok_iff :
    {Error Addr : Type 0} (join : Joining Error) (to_string : Error → Str)
    (send : Addr → Error ⊎ Lifecycle) (this : Supervisor Addr)
    → let response = health to_string (inr (handle_get_status_all join send this)) in
      ((response.code ≡ ok_code) ↔ All (λ a. send a.1 ≡ inr (running healthy)) this.actors)
      × ((response.code ≡ ok_code) ⊎ (response.code ≡ internal_server_error))
unfolding handle_get_status_all health health_of
health_ok_iff join to_string send this = elim (answers-cases send this.actors) [
  | inl good ↦
      subst (Tells to_string (AllHealthy send this.actors))
        (sym (ap join.try_join_all good.joined ∙ join.all_joined good.statuses))
        (good-Tells to_string (AllHealthy send this.actors) good.statuses good.healthy_iff)
  | inr bad ↦
      let (first, m, refused) = join.one_failed _ bad.error bad.failed in
      subst (Tells to_string (AllHealthy send this.actors)) (sym refused)
        (bad-Tells to_string (AllHealthy send this.actors) first bad.unhealthy)
]

-- Where every caretaker answers and some program is not running and healthy, the body of `health`
-- names the programs that are not, those and no others.
health_lists :
    {Error : Type 0} (to_string : Error → Str) (statuses : List (Str × Lifecycle)) (name : Str)
    → IsBad name statuses
    → (listed : List Str) × ((health to_string (inr (inr statuses))).body
        ≡ (codes "healthy", boolean false) ∷ (codes "bad_services", strings listed) ∷ [])
      × ((other : Str) → Memᴰ other listed ↔ IsBad other statuses)
unfolding health health_of
health_lists to_string statuses name bad =
    let m = mem-bad_services name statuses bad in
    (
      bad_services statuses,
      health_of-body name (bad_services statuses) m,
      λ other. (IsBad-mem other statuses, mem-bad_services other statuses),
    )

-- Where every caretaker answers and the programs' names are distinct, the body of `status` has under a name the text of a state
-- exactly when a program of that name is in that state: the texts of two states differ.
pub status-lookup_iff :
    {Error : Type 0} (to_string : Error → Str) (statuses : List (Str × Lifecycle)) (name : Str)
    (lifecycle : Lifecycle)
    → DistinctKeys statuses
    → (Map.lookup name (status to_string (inr (inr statuses))).body
        ≡ some (string (debug_lifecycle lifecycle)))
      ↔ Memᴰ (name, lifecycle) statuses
unfolding status
status-lookup_iff to_string statuses name lifecycle d =
    let distinct = DistinctKeys-shown statuses d in
    (
      (λ h. shown-mem (name, lifecycle) statuses ((lookup-collect_iff name _ _ distinct).0 h)),
      (λ m. (lookup-collect_iff name _ _ distinct).1 (mem-shown (name, lifecycle) statuses m)),
    )
