-- ===== src/Proxy/Handler/Headers.antt =====
-- The headers that src/proxy/handler.rs sends to an upstream and gives back.
use blahaj.Prelude.{
  ℕ, List, [], ◌∷◌, ◌++◌, true, false, ◌≡◌, ◌≢◌, refl, ap, sym, ◌∙◌, some, All, arith, ◌↔◌, ◌⊎◌,
  inl, inr, Bool-cases,
}
use blahaj.Prelude.Text.{Str, codes}
use blahaj.Text.Laws.{str_eq_iff}
use blahaj.Map.Laws.{Absent}
use blahaj.Proxy.Handler.{
  HttpRequest, ClientApi, BuilderApi, upstream_req, forwarded, via, x_forwarded_for, is_hop_by_hop,
  copy_headers,
}

-- The two names of headers that are not given back.
abbrev pub HopByHop : Str → Type 0
HopByHop name = (name ≡ codes "connection") ⊎ (name ≡ codes "transfer-encoding")

is_hop_by_hop_iff : (name : Str) → (is_hop_by_hop name ≡ true) ↔ HopByHop name
unfolding is_hop_by_hop
is_hop_by_hop_iff name =
    ground
      (arith, str_eq_iff name (codes "connection"), str_eq_iff name (codes "transfer-encoding"))

module _ (api : BuilderApi) where
  open api use {Value, Builder, build, insert_header, values}

  copy_headers-Absent :
      (name : Str) (headers : List (Str × Value)) (b : Builder)
      → Absent name headers
      → values name (copy_headers api headers b) ≡ values name b
  unfolding copy_headers
  copy_headers-Absent name [] b h = refl
  copy_headers-Absent name ((n, v) ∷ rest) b (ne, h) = elim (Bool-cases (is_hop_by_hop n)) [
    | inl hop ↦ rw (hop) (copy_headers-Absent name rest b h)
    | inr end_to_end ↦ rw (end_to_end) (
        copy_headers-Absent name rest (insert_header n v b) h
        ∙ api.values-insert_other n name v b (λ e. ne (sym e)))
  ]

  copy_headers-insert :
      (name : Str) (v : Value) (rest : List (Str × Value)) (b : Builder)
      → is_hop_by_hop name ≡ false
      → copy_headers api ((name, v) ∷ rest) b ≡ copy_headers api rest (insert_header name v b)
  unfolding copy_headers
  copy_headers-insert name v rest b stays = rw (stays) refl

  copy_headers-last_into :
      (name : Str) (v : Value) (before later : List (Str × Value)) (b : Builder)
      → ¬ HopByHop name
      → Absent name later
      → values name (copy_headers api (before ++ (name, v) ∷ later) b) ≡ v ∷ []
  unfolding copy_headers
  copy_headers-last_into name v [] later b end_to_end h = elim (Bool-cases (is_hop_by_hop name)) [
    | inl hop ↦ absurd (end_to_end ((is_hop_by_hop_iff name).0 hop))
    | inr stays ↦
        ap (values name) (copy_headers-insert name v later b stays)
        ∙ copy_headers-Absent name later (insert_header name v b) h
        ∙ api.values-insert_same name v b
  ]
  copy_headers-last_into name v (_ ∷ before) later b end_to_end h =
      copy_headers-last_into name v before later _ end_to_end h

  -- Of the values that an upstream's answer has under one name, other than `connection` and
  -- `transfer-encoding`, only the last is given back.
  pub copy_headers-last :
      (code : ℕ) (name : Str) (v : Value) (before later : List (Str × Value))
      → ¬ HopByHop name
      → Absent name later
      → values name (copy_headers api (before ++ (name, v) ∷ later) (build code)) ≡ v ∷ []
  copy_headers-last code name v before later =
      copy_headers-last_into name v before later (build code)

  copy_headers-kept :
      (name : Str) (headers : List (Str × Value)) (b : Builder)
      → HopByHop name
      → values name (copy_headers api headers b) ≡ values name b
  unfolding copy_headers
  copy_headers-kept name [] b h = refl
  copy_headers-kept name ((n, v) ∷ rest) b h = elim (Bool-cases (is_hop_by_hop n)) [
    | inl hop ↦ rw (hop) (copy_headers-kept name rest b h)
    | inr end_to_end ↦ rw (end_to_end) (
        copy_headers-kept name rest (insert_header n v b) h
        ∙ api.values-insert_other n name v b
            (λ same. ground (arith, same, h, is_hop_by_hop_iff n, end_to_end)))
  ]

  -- Nothing is given back under `connection` and `transfer-encoding`, nor under a name that the
  -- upstream's answer does not have.
  copy_headers-drops :
      (code : ℕ) (name : Str) (headers : List (Str × Value))
      → HopByHop name ⊎ Absent name headers
      → values name (copy_headers api headers (build code)) ≡ []
  copy_headers-drops code name headers (inl hop) =
      copy_headers-kept name headers (build code) hop ∙ api.values-build code name
  copy_headers-drops code name headers (inr absent) =
      copy_headers-Absent name headers (build code) absent ∙ api.values-build code name

-- The five headers that are the handler's own.
abbrev own_names : List Str
own_names =
    codes "forwarded"
    ∷ codes "x-forwarded-proto"
    ∷ codes "x-forwarded-host"
    ∷ codes "x-forwarded-for"
    ∷ codes "via"
    ∷ []

module _ {Uri : Type 0} (client : ClientApi Uri) where
  open client use {IsLegal, header, request_from}

  -- The values of the handler's own headers can be sent.
  record IsSendable (interface : Str) (req : HttpRequest Uri) : Type 0 where
    forwarded_legal : IsLegal (forwarded interface req)
    proto_legal : IsLegal req.scheme
    host_legal : IsLegal req.host
    for_legal : IsLegal (x_forwarded_for req)
    via_legal : IsLegal (via req)

  header-past :
      (own value name : Str) (r : client.ClientRequest)
      → (name ≡ own → ⊥)
      → header name (client.insert_header own value r) ≡ header name r
  header-past own value name r ne = client.header-insert_other own name value r ne

  -- Where the values of the handler's own five headers can be sent, the upstream gets each of them
  -- as computed from the request that came.
  upstream_req-own :
      (upstream interface : Str) (req : HttpRequest Uri)
      → IsSendable interface req
      → let sent = upstream_req client upstream interface req in
        (header (codes "forwarded") sent ≡ some (forwarded interface req))
        × (header (codes "x-forwarded-proto") sent ≡ some req.scheme)
        × (header (codes "x-forwarded-host") sent ≡ some req.host)
        × (header (codes "x-forwarded-for") sent ≡ some (x_forwarded_for req))
        × (header (codes "via") sent ≡ some (via req))
  unfolding upstream_req
  upstream_req-own upstream interface req s = (
    (header-past _ _ _ _ (λ e. ground (arith, e))
        ∙ header-past _ _ _ _ (λ e. ground (arith, e))
        ∙ header-past _ _ _ _ (λ e. ground (arith, e))
        ∙ header-past _ _ _ _ (λ e. ground (arith, e))
        ∙ client.header-insert_same _ _ _ s.forwarded_legal),
    (header-past _ _ _ _ (λ e. ground (arith, e))
        ∙ header-past _ _ _ _ (λ e. ground (arith, e))
        ∙ header-past _ _ _ _ (λ e. ground (arith, e))
        ∙ client.header-insert_same _ _ _ s.proto_legal),
    (header-past _ _ _ _ (λ e. ground (arith, e))
        ∙ header-past _ _ _ _ (λ e. ground (arith, e))
        ∙ client.header-insert_same _ _ _ s.host_legal),
    (header-past _ _ _ _ (λ e. ground (arith, e)) ∙ client.header-insert_same _ _ _ s.for_legal),
    client.header-insert_same _ _ _ s.via_legal,
  )

  -- Every header under a name that is not one of the handler's own five is sent as the crate `awc`
  -- copies it from the request that came.
  upstream_req-other :
      (upstream interface : Str) (req : HttpRequest Uri) (name : Str)
      → All (λ own. name ≢ own) own_names
      → header name (upstream_req client upstream interface req)
        ≡ header name (request_from upstream req)
  unfolding upstream_req
  upstream_req-other upstream interface req name (h0, (h1, (h2, (h3, (h4, _))))) =
      header-past _ _ name _ h4
      ∙ header-past _ _ name _ h3
      ∙ header-past _ _ name _ h2
      ∙ header-past _ _ name _ h1
      ∙ header-past _ _ name _ h0
      ∙ client.header-no_decompress name _
