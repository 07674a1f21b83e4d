-- ===== src/Main/Order.antt =====
-- The programs of a configuration (src/config.rs) are a hash map, which src/main.rs goes through in
-- no order that can be relied on.
use mathlib.Core.List.{Permᴰ, Memᴰ}
use mathlib.Core.List.Permᴰ
use blahaj.Prelude.{
  List, ◌∷◌, ◌≡◌, refl, sym, ◌∙◌, ap, subst, Option, none, some, ◌⊎◌, All, map, arith,
}
use blahaj.Prelude.Text.{Str}
use blahaj.Map.Laws.{Absent}
use blahaj.Config.{Config, Program, HttpRelay, SocketAddr}
use blahaj.Proxy.{keyed, new, get, UriApi}
use blahaj.Proxy.Routing.{DistinctPaths, get-order}
use blahaj.Proxy.Handler.{HttpRequest, ClientApi, BuilderApi, ClientResponse, forward}
use blahaj.Main.{relays_of, proxy_config}

module _ {ℓ} {A : Type ℓ} where
  perm-mem : {a : A} {xs ys : List A} → Permᴰ xs ys → Memᴰ a xs → Memᴰ a ys
  perm-mem Permᴰ.nil m = m
  perm-mem (Permᴰ.cons e p) (Memᴰ.head same) = Memᴰ.head (same ∙ e)
  perm-mem (Permᴰ.cons e p) (Memᴰ.tail m) = Memᴰ.tail (perm-mem p m)
  perm-mem (Permᴰ.swap e f) (Memᴰ.head same) = Memᴰ.tail (Memᴰ.head (same ∙ e))
  perm-mem (Permᴰ.swap e f) (Memᴰ.tail (Memᴰ.head same)) = Memᴰ.head (same ∙ f)
  perm-mem (Permᴰ.swap e f) (Memᴰ.tail (Memᴰ.tail m)) = Memᴰ.tail (Memᴰ.tail m)
  perm-mem (Permᴰ.trans p q) m = perm-mem q (perm-mem p m)

  perm-All : (P : A → Type 0) {xs ys : List A} → Permᴰ xs ys → All P xs → All P ys
  perm-All P Permᴰ.nil h = h
  perm-All P (Permᴰ.cons e p) (a, h) = (subst P e a, perm-All P p h)
  perm-All P (Permᴰ.swap e f) (a, (b, h)) = (subst P f b, (subst P e a, h))
  perm-All P (Permᴰ.trans p q) h = perm-All P q (perm-All P p h)

perm-DistinctPaths : {xs ys : List HttpRelay} → Permᴰ xs ys → DistinctPaths xs → DistinctPaths ys
perm-DistinctPaths Permᴰ.nil h = h
perm-DistinctPaths (Permᴰ.cons {a} {l₂ = rest} e p) (absent, h) = (
  subst (λ r. Absent (keyed r).0 (map keyed rest)) e (perm-All _ (Permᴰ.map keyed p) absent),
  perm-DistinctPaths p h,
)
perm-DistinctPaths (Permᴰ.swap {l = rest} e f) ((differ, first), (second, h)) = (
  (
    λ same. differ (ap (λ r. (keyed r).0) f ∙ sym same ∙ ap (λ r. (keyed r).0) (sym e)),
    subst (λ r. Absent (keyed r).0 (map keyed rest)) f second,
  ),
  (subst (λ r. Absent (keyed r).0 (map keyed rest)) e first, h),
)
perm-DistinctPaths (Permᴰ.trans p q) h = perm-DistinctPaths q (perm-DistinctPaths p h)

-- A relay, if there is one, before others.
abbrev with_relay : Option HttpRelay → List HttpRelay → List HttpRelay
with_relay none relays = relays
with_relay (some relay) relays = relay ∷ relays

relays_of-with_relay :
    (a : Str × Program) (programs : List (Str × Program))
    → relays_of (a ∷ programs) ≡ with_relay a.1.http (relays_of programs)
unfolding relays_of
relays_of-with_relay a programs = ground arith

same-with_relay :
    (x : Option HttpRelay) {xs ys : List HttpRelay}
    → Permᴰ xs ys
    → Permᴰ (with_relay x xs) (with_relay x ys)
same-with_relay none p = p
same-with_relay (some relay) p = Permᴰ.cons refl p

perm-with_relay :
    {x y : Option HttpRelay} {xs ys : List HttpRelay}
    → x ≡ y
    → Permᴰ xs ys
    → Permᴰ (with_relay x xs) (with_relay y ys)
perm-with_relay {x} {xs} {ys} e p =
    subst (λ z. Permᴰ (with_relay x xs) (with_relay z ys)) e (same-with_relay x p)

swap-with_relay :
    (x y : Option HttpRelay) (relays : List HttpRelay)
    → Permᴰ (with_relay x (with_relay y relays)) (with_relay y (with_relay x relays))
swap-with_relay none y relays = Permᴰ.refl _
swap-with_relay (some a) none relays = Permᴰ.refl _
swap-with_relay (some a) (some b) relays = Permᴰ.swap refl refl

perm-relays_of : {xs ys : List (Str × Program)} → Permᴰ xs ys → Permᴰ (relays_of xs) (relays_of ys)
unfolding relays_of
perm-relays_of Permᴰ.nil = Permᴰ.nil
perm-relays_of (Permᴰ.cons {a} {b} {l₁} {l₂} e p) =
    rw (relays_of-with_relay a l₁, relays_of-with_relay b l₂)
      (perm-with_relay (ap (λ q. q.1.http) e) (perm-relays_of p))
perm-relays_of (Permᴰ.swap {a} {b} {a'} {b'} {l} e f) =
    rw
      (
        relays_of-with_relay a (b ∷ l),
        relays_of-with_relay b l,
        relays_of-with_relay a' (b' ∷ l),
        relays_of-with_relay b' l,
      )
      (Permᴰ.trans (swap-with_relay a.1.http b.1.http (relays_of l)) (
        perm-with_relay (ap (λ q. q.1.http) f)
          (perm-with_relay (ap (λ q. q.1.http) e) (Permᴰ.refl (relays_of l)))))
perm-relays_of (Permᴰ.trans p q) = Permᴰ.trans (perm-relays_of p) (perm-relays_of q)

module _ (api : BuilderApi) {Body : Type 0} (uris : UriApi) (to_string : uris.Uri → Str)
    (client : ClientApi uris.Uri)
    (send_body : client.ClientRequest → Body → Str ⊎ ClientResponse api.Value Body) where
  forward-get :
      (xs ys : List HttpRelay) (bind : SocketAddr) (req : HttpRequest uris.Uri) (body : Body)
      → get uris (new xs bind) req.uri ≡ get uris (new ys bind) req.uri
      → forward api uris to_string client send_body (new xs bind) req body
        ≡ forward api uris to_string client send_body (new ys bind) req body
  unfolding forward new
  forward-get xs ys bind req body same = rw (same) refl

  -- In whatever order the programs of a configuration come out of the hash map, every request is
  -- answered alike, whatever the upstreams answer: where no two relays have one trimmed path.
  pub forward-order :
      (config : Config) (programs : List (Str × Program)) (req : HttpRequest uris.Uri) (body : Body)
      → DistinctPaths (relays_of config.programs)
      → Permᴰ config.programs programs
      → forward api uris to_string client send_body (proxy_config config) req body
        ≡ forward api uris to_string client send_body
            (proxy_config (record config { programs = programs }))
            req
            body
  unfolding proxy_config
  forward-order config programs req body distinct p =
      let relays = perm-relays_of p in
      forward-get (relays_of config.programs) (relays_of programs) config.bind req body (
        get-order uris (relays_of config.programs) (relays_of programs) config.bind req.uri distinct
          (perm-DistinctPaths relays distinct)
          (λ r. (perm-mem relays, perm-mem (Permᴰ.symm relays))))
