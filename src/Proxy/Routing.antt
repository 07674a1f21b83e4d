-- ===== src/Proxy/Routing.antt =====
-- Which table entry `ProxyConfig::get` of src/proxy/mod.rs takes for a request.
use mathlib.Core.List.{Memᴰ}
use mathlib.Core.List.Memᴰ
use mathlib.Core.Option
use mathlib.Core.Option.{none-ne-some, some-injective}
use blahaj.Prelude.{
  ◌<◌, List, [], ◌∷◌, ◌≡◌, refl, ap, sym, ◌∙◌, subst, fun_ext, Option, none, some, inl, inr, ◌↔◌,
  length, arith, Option-cases, All, map,
}
use blahaj.Prelude.Text.{Str}
use blahaj.Text.{trim_start}
use blahaj.Text.Laws.{trim_start-ne-cons}
use blahaj.Map
use blahaj.Map.Laws.{DistinctKeys, lookup-collect_iff}
use blahaj.Config.{HttpRelay, SocketAddr}
use blahaj.Proxy.{
  slash, ProxyEntry, ProxyConfig, keyed, new, ancestors, find_map, route, UriApi, get,
}
use blahaj.Proxy.Ancestors.{IsAncestor, Descending, mem-ancestors_iff, ancestors-Descending}

All-mem {ℓ κ} : {A : Type ℓ} (P : A → Type κ) {a : A} {xs : List A} → All P xs → Memᴰ a xs → P a
All-mem P {xs = []} h m = elim m [ ]
All-mem P {xs = x ∷ xs} h (Memᴰ.head e) = subst P (sym e) h.0
All-mem P {xs = x ∷ xs} h (Memᴰ.tail r) = All-mem P h.1 r

module _ {ℓ} {V : Type ℓ} (look : Str → Option V) where
  abbrev tagged : Str → Option (Str × V)
  tagged key = Option.map (λ (v : V). (key, v)) (look key)

  -- `key` is in the list and has the value `v`, and no longer text of the list has a value.
  record IsLongestIn (keys : List Str) (key : Str) (v : V) : Type ℓ where
    listed : Memᴰ key keys
    found : look key ≡ some v
    longest : (q : Str) → Memᴰ q keys → length key < length q → look q ≡ none

  not_longer :
      {k : Str} {keys : List Str}
      → All (λ q. length q < length k) keys
      → (q : Str) → Memᴰ q (k ∷ keys)
      → ¬ (length k < length q)
  not_longer shorter q (Memᴰ.head e) lt = omega (arith, ap length e)
  not_longer {k} shorter q (Memᴰ.tail r) lt =
      omega (arith, All-mem (λ q. length q < length k) shorter r)

  longest_step :
      (key : Str) {k : Str} {keys : List Str}
      → look k ≡ none
      → ((q : Str) → Memᴰ q keys → length key < length q → look q ≡ none)
      → (q : Str) → Memᴰ q (k ∷ keys)
      → length key < length q
      → look q ≡ none
  longest_step key e h q (Memᴰ.head same) lt = ap look same ∙ e
  longest_step key e h q (Memᴰ.tail r) lt = h q r lt

  find_map_sound :
      (keys : List Str) (key : Str) (v : V)
      → Descending keys
      → find_map tagged keys ≡ some (key, v)
      → IsLongestIn keys key v
  unfolding find_map
  find_map_sound [] key v d h = absurd (none-ne-some (key, v) h)
  find_map_sound (k ∷ keys) key v (shorter, d) h = elim (Option-cases (look k)) [
    | inl e ↦
        let rest = find_map_sound keys key v d (rw (e, find_map) at h) in
        record {
          listed = Memᴰ.tail rest.listed;
          found = rest.found;
          longest = λ q m lt. longest_step key e rest.longest q m lt;
        }
    | inr (w, e) ↦
        let same : some (k, w) ≡ some (key, v) = rw (e, find_map) at h in
        let pair = some-injective (k, w) (key, v) same in
        let same_key : k ≡ key = ap (λ p. p.0) pair in
        let same_value : w ≡ v = ap (λ p. p.1) pair in
        record {
          listed = Memᴰ.head (sym same_key);
          found = subst (λ t. look t ≡ some v) same_key (e ∙ ap some same_value);
          longest = λ q m lt. absurd (not_longer shorter q m (rw (← same_key) at lt));
        }
  ]

  find_map_complete :
      (keys : List Str) (key : Str) (v : V)
      → Descending keys
      → IsLongestIn keys key v
      → find_map tagged keys ≡ some (key, v)
  unfolding find_map
  find_map_complete [] key v d h = elim h.listed [ ]
  find_map_complete (k ∷ keys) key v (shorter, d) h = elim (Memᴰ.cases_cons h.listed) [
    | inl e ↦ rw (subst (λ t. look t ≡ some v) e h.found, find_map) (rw e)
    | inr r ↦
        rw (h.longest k (Memᴰ.head refl) (All-mem (λ q. length q < length k) shorter r), find_map)
          (find_map_complete keys key v d (record {
            listed = r;
            found = h.found;
            longest = λ q m lt. h.longest q (Memᴰ.tail m) lt;
          }))
  ]

-- The entry for a path: that of the longest key of the table that is the path or one of its
-- ancestors. The slashes before the path do not count.
pub record IsLongest (config : ProxyConfig) (path key : Str) (entry : ProxyEntry) : Type 0 where
  pub ancestor : IsAncestor key (trim_start slash path)
  pub found : Map.lookup key config.map ≡ some entry
  pub longest :
      (q : Str)
      → IsAncestor q (trim_start slash path)
      → length key < length q
      → Map.lookup q config.map ≡ none

-- `route` takes an entry under a key exactly when the key is an ancestor of the path (less its
-- leading slashes), the table has that entry there, and the table has no longer ancestor.
pub route_iff :
    (config : ProxyConfig) (path key : Str) (entry : ProxyEntry)
    → (route config path ≡ some (key, entry)) ↔ IsLongest config path key entry
unfolding route
route_iff config path key entry =
    let t = trim_start slash path in
    let look = λ (q : Str). Map.lookup q config.map in
    (
      λ h.
          let found = find_map_sound look (ancestors t) key entry (ancestors-Descending t) h in
          record {
            ancestor = (mem-ancestors_iff t key).0 found.listed;
            found = found.found;
            longest = λ q a lt. found.longest q ((mem-ancestors_iff t q).1 a) lt;
          },
      λ h. find_map_complete look (ancestors t) key entry (ancestors-Descending t) (record {
        listed = (mem-ancestors_iff t key).1 h.ancestor;
        found = h.found;
        longest = λ q m lt. h.longest q ((mem-ancestors_iff t q).0 m) lt;
      }),
    )

-- A relay whose path is only slashes has the empty key. It is taken only for a request whose path
-- is only slashes, and is no fallback for the other paths.
route_root :
    (config : ProxyConfig) (path : Str) (entry : ProxyEntry)
    → route config path ≡ some ([], entry)
    → trim_start slash path ≡ []
route_root config path entry h = elim ((route_iff config path [] entry).0 h).ancestor [
  | inl e ↦ sym e
  | inr (r, e) ↦ absurd (trim_start-ne-cons slash path r e)
]

-- No two relays have one path, less the slashes at its ends.
abbrev pub DistinctPaths : List HttpRelay → Type 0
DistinctPaths relays = DistinctKeys (map keyed relays)

abbrev pub SameRelays : List HttpRelay → List HttpRelay → Type 0
SameRelays xs ys = (r : HttpRelay) → Memᴰ r xs ↔ Memᴰ r ys

keyed_mem :
    (xs ys : List HttpRelay)
    → ((r : HttpRelay) → Memᴰ r xs → Memᴰ r ys)
    → (e : Str × ProxyEntry) → Memᴰ e (map keyed xs)
    → Memᴰ e (map keyed ys)
keyed_mem xs ys sub e m =
    let (r, r_mem, eq) = Memᴰ.of_map keyed xs m in Memᴰ.cast (sym eq) (Memᴰ.map keyed (sub r r_mem))

Option-ext {ℓ} :
    {A : Type ℓ} (x y : Option A)
    → ((a : A) → x ≡ some a → y ≡ some a)
    → ((a : A) → y ≡ some a → x ≡ some a)
    → x ≡ y
Option-ext none none f g = refl
Option-ext none (some b) f g = g b refl
Option-ext (some a) y f g = sym (f a refl)

lookup-order :
    (xs ys : List HttpRelay)
    → DistinctPaths xs
    → DistinctPaths ys
    → SameRelays xs ys
    → (q : Str)
    → Map.lookup q (Map.collect (map keyed xs)) ≡ Map.lookup q (Map.collect (map keyed ys))
lookup-order xs ys dx dy same q =
    Option-ext _ _ (one_way xs ys dx dy (λ r. (same r).0)) (one_way ys xs dy dx (λ r. (same r).1))
  where
    one_way :
        (us vs : List HttpRelay)
        → DistinctPaths us
        → DistinctPaths vs
        → ((r : HttpRelay) → Memᴰ r us → Memᴰ r vs)
        → (v : ProxyEntry) → Map.lookup q (Map.collect (map keyed us)) ≡ some v
        → Map.lookup q (Map.collect (map keyed vs)) ≡ some v
    one_way us vs da db sub v h =
        (lookup-collect_iff q v (map keyed vs) db).1
          (keyed_mem us vs sub (q, v) ((lookup-collect_iff q v (map keyed us) da).0 h))

route-order :
    (xs ys : List HttpRelay) (bind : SocketAddr) (path : Str)
    → DistinctPaths xs
    → DistinctPaths ys
    → SameRelays xs ys
    → route (new xs bind) path ≡ route (new ys bind) path
unfolding route new
route-order xs ys bind path dx dy same =
    ap
      (λ (look : Str → Option ProxyEntry).
        find_map (tagged look) (ancestors (trim_start slash path)))
      (fun_ext (lookup-order xs ys dx dy same))

-- The relays come out of a hash map in no order that can be relied on. If their trimmed paths are
-- distinct, two tables made from the same relays send every request to the same place.
pub get-order :
    (api : UriApi) (xs ys : List HttpRelay) (bind : SocketAddr) (uri : api.Uri)
    → DistinctPaths xs
    → DistinctPaths ys
    → SameRelays xs ys
    → get api (new xs bind) uri ≡ get api (new ys bind) uri
unfolding get
get-order api xs ys bind uri dx dy same = rw (route-order xs ys bind (api.path uri) dx dy same, get)
