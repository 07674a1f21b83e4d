-- ===== src/Endpoints/Tests.antt =====
-- The endpoints of src/endpoints.rs for two programs, of which the second is starting.
use mathlib.Core.List.{Memᴰ}
use mathlib.Core.Sum.{inl-ne-inr}
use blahaj.Prelude.{
  ℕ, zero, suc, List, [], ◌∷◌, ◌≡◌, ◌↔◌, refl, ◌⊎◌, inl, inr, map, All, arith, some, ap,
}
use blahaj.Prelude.Text.{Str, codes}
use blahaj.Map
use blahaj.Supervisor.Lifecycle.{Lifecycle, starting, running, healthy}
use blahaj.Supervisor.Fleet.{Joining, Supervisor, handle_get_status_all}
use blahaj.Endpoints.{health, status, ok_code, internal_server_error, string, debug_lifecycle}
use blahaj.Endpoints.Answers.{health_ok_iff, status-lookup_iff}

-- Answers that are all there at once: the first error in the list wins.
abbrev kept : {A : Type 0} → A → ℕ ⊎ List A → ℕ ⊎ List A
kept x (inl e) = inl e
kept x (inr xs) = inr (x ∷ xs)

abbrev join_in_order : {A : Type 0} → List (ℕ ⊎ A) → ℕ ⊎ List A
join_in_order [] = inr []
join_in_order (inl e ∷ rest) = inl e
join_in_order (inr x ∷ rest) = kept x (join_in_order rest)

join_in_order-map : {A : Type 0} (xs : List A) → join_in_order (map inr xs) ≡ inr xs
join_in_order-map [] = refl
join_in_order-map (x ∷ xs) = ap (kept x) (join_in_order-map xs)

join_in_order-error :
    {A : Type 0} (results : List (ℕ ⊎ A)) (e : ℕ)
    → Memᴰ (inl e) results
    → (first : ℕ) × Memᴰ (inl first) results × (join_in_order results ≡ inl first)
join_in_order-error [] e m = elim m [ ]
join_in_order-error (inl d ∷ rest) e m = (d, Memᴰ.head refl, refl)
join_in_order-error (inr x ∷ rest) e (Memᴰ.head p) = absurd (inl-ne-inr p)
join_in_order-error (inr x ∷ rest) e (Memᴰ.tail m) =
    let (first, found, same) = join_in_order-error rest e m in
    (first, Memᴰ.tail found, ap (kept x) same)

abbrev in_order : Joining ℕ
in_order = record {
  try_join_all = join_in_order;
  all_joined = join_in_order-map;
  one_failed = join_in_order-error;
}

abbrev to_string : ℕ → Str
to_string n = codes "Mailbox has closed"

-- The address of a caretaker is a number; the second program is starting, others are healthy.
abbrev send : ℕ → ℕ ⊎ Lifecycle
send (suc zero) = inr starting
send _ = inr (running healthy)

abbrev pair : Supervisor ℕ
pair = record { actors = (codes "a", 0) ∷ (codes "b", 1) ∷ [] }

abbrev two_statuses : List (Str × Lifecycle)
two_statuses = (codes "a", running healthy) ∷ (codes "b", starting) ∷ []

health_ok_iff_example :
    let response = health to_string (inr (handle_get_status_all in_order send pair)) in
    ((response.code ≡ ok_code) ↔ All (λ a. send a.1 ≡ inr (running healthy)) pair.actors)
    × ((response.code ≡ ok_code) ⊎ (response.code ≡ internal_server_error))
health_ok_iff_example = health_ok_iff in_order to_string send pair

status-lookup_iff_example :
    (Map.lookup (codes "b") (status to_string (inr (inr two_statuses))).body
      ≡ some (string (debug_lifecycle starting)))
    ↔ Memᴰ (codes "b", starting) two_statuses
status-lookup_iff_example =
    status-lookup_iff to_string two_statuses (codes "b") starting
      (((λ e. ground (arith, e)), tt), (tt, tt))
