-- ===== src/Network/Approved.antt =====
-- network.py: which destinations are allowed.
use notebook_launcher.Prelude.{
  ◌≡◌, ◌≢◌, ◌⊎◌, ◌↔◌, String, true, false, none, some, List, [], ◌∷◌, map, any, all, All, arith,
  refl, Bool-cases, Option-cases, inl, inr,
}
use notebook_launcher.Network.Destinations.{
  Addresses, normalized_address, normalized_all, classify_address, classify_destination,
  validate_resolved_addresses, all_destinations_allowed,
}

module _ (ip : Addresses) where
  -- The text is of this address, or of an IPv6 address to which this IPv4 address is mapped.
  abbrev pub Denotes : String → ip.Address → Type 0
  Denotes value a =
      (b : ip.Address) × (ip.ip_address value ≡ some b)
      × ((ip.ipv4_mapped b ≡ some a) ⊎ ((ip.ipv4_mapped b ≡ none) × (b ≡ a)))

  -- The address is one of the public internet.
  abbrev pub IsPublic : ip.Address → Type 0
  IsPublic a =
      (ip.is_global a ≡ true)
      × (ip.is_loopback a ≡ false)
      × (ip.is_private a ≡ false)
      × (ip.is_link_local a ≡ false)
      × (ip.is_multicast a ≡ false)
      × (ip.is_unspecified a ≡ false)
      × (ip.in_6to4_relay a ≡ false)

  -- One of the texts is of the same address.
  abbrev pub IsAmong : List String → ip.Address → Type 0
  IsAmong [] a = ⊥
  IsAmong (e ∷ l) a = ((b : ip.Address) × Denotes e b × (ip.same a b ≡ true)) ⊎ IsAmong l a

  abbrev pub IsAllowed : List String → String → Type 0
  IsAllowed approved value = (a : ip.Address) × Denotes value a × (IsAmong approved a ⊎ IsPublic a)

  abbrev pub IsAddress : String → Type 0
  IsAddress value = (a : ip.Address) × Denotes value a

  normalized-Denotes :
      (value : String) (a : ip.Address) → normalized_address ip value ≡ some a → Denotes value a
  normalized-Denotes value a h = elim (Option-cases (ip.ip_address value)) [
    | inl e ↦ absurd (ground arith)
    | inr (b, e) ↦ elim (Option-cases (ip.ipv4_mapped b)) [
      | inl f ↦ (b, e, inr (f, ground arith))
      | inr (c, f) ↦ (b, e, inl (ground arith))
    ]
  ]

  Denotes-normalized :
      (value : String) (a : ip.Address) → Denotes value a → normalized_address ip value ≡ some a
  Denotes-normalized value a (b, e, inl f) = ground arith
  Denotes-normalized value a (b, e, inr (f, g)) = ground arith

  -- The endpoints are the addresses of the texts, and each text has one.
  endpoints-IsAmong :
      (approved : List String) (endpoints : List ip.Address) (a : ip.Address)
      → normalized_all ip approved ≡ some endpoints
      → any (ip.same a) endpoints ≡ true
      → IsAmong approved a
  endpoints-IsAmong [] endpoints a h g = absurd (ground arith)
  endpoints-IsAmong (e ∷ l) endpoints a h g = elim (Option-cases (normalized_address ip e)) [
    | inl q ↦ absurd (ground arith)
    | inr (b, q) ↦ elim (Option-cases (normalized_all ip l)) [
      | inl r ↦ absurd (ground arith)
      | inr (rest, r) ↦ elim (Bool-cases (ip.same a b)) [
        | inl s ↦ inl (b, normalized-Denotes e b q, s)
        | inr s ↦ inr (endpoints-IsAmong l rest a r (ground arith))
      ]
    ]
  ]

  IsAmong-endpoints :
      (approved : List String) (endpoints : List ip.Address) (a : ip.Address)
      → normalized_all ip approved ≡ some endpoints
      → IsAmong approved a
      → any (ip.same a) endpoints ≡ true
  IsAmong-endpoints [] endpoints a h among = elim among [ ]
  IsAmong-endpoints (e ∷ l) endpoints a h (inl (b, d, s)) =
      let q = Denotes-normalized e b d in
      elim (Option-cases (normalized_all ip l)) [
        | inl r ↦ absurd (ground arith)
        | inr (rest, r) ↦ ground arith
      ]
  IsAmong-endpoints (e ∷ l) endpoints a h (inr among) =
      elim (Option-cases (normalized_address ip e)) [
        | inl q ↦ absurd (ground arith)
        | inr (b, q) ↦ elim (Option-cases (normalized_all ip l)) [
          | inl r ↦ absurd (ground arith)
          | inr (rest, r) ↦
              ground (arith, IsAmong-endpoints l rest a r among, Bool-cases (ip.same a b))
        ]
      ]

  endpoints-IsAddress :
      (approved : List String) (endpoints : List ip.Address)
      → normalized_all ip approved ≡ some endpoints
      → All IsAddress approved
  endpoints-IsAddress [] endpoints h = tt
  endpoints-IsAddress (e ∷ l) endpoints h = elim (Option-cases (normalized_address ip e)) [
    | inl q ↦ absurd (ground arith)
    | inr (b, q) ↦ elim (Option-cases (normalized_all ip l)) [
      | inl r ↦ absurd (ground arith)
      | inr (rest, r) ↦ ((b, normalized-Denotes e b q), endpoints-IsAddress l rest r)
    ]
  ]

  IsAddress-endpoints :
      (approved : List String)
      → All IsAddress approved
      → (endpoints : List ip.Address) × (normalized_all ip approved ≡ some endpoints)
  IsAddress-endpoints [] h = ([], refl)
  IsAddress-endpoints (e ∷ l) ((b, d), h) =
      let (rest, r) = IsAddress-endpoints l h in
      let q = Denotes-normalized e b d in (b ∷ rest, ground arith)

  classify-IsPublic : (a : ip.Address) → (classify_address ip a).allowed ≡ true → IsPublic a
  classify-IsPublic a h = (
    ground arith,
    ground arith,
    ground arith,
    ground arith,
    ground arith,
    ground arith,
    ground arith,
  )

  IsPublic-classify : (a : ip.Address) → IsPublic a → (classify_address ip a).allowed ≡ true
  IsPublic-classify a (g, l, p, k, m, u, r) = ground arith

  allowed-IsAllowed :
      (approved : List String) (value : String)
      → (classify_destination ip approved value).allowed ≡ true
      → IsAllowed approved value × All IsAddress approved
  unfolding classify_destination
  allowed-IsAllowed approved value h = elim (Option-cases (normalized_address ip value)) [
    | inl e ↦ absurd (ground arith)
    | inr (a, e) ↦ elim (Option-cases (normalized_all ip approved)) [
      | inl f ↦ absurd (ground arith)
      | inr (endpoints, f) ↦ elim (Bool-cases (any (ip.same a) endpoints)) [
        | inl g ↦ (
          (a, normalized-Denotes value a e, inl (endpoints-IsAmong approved endpoints a f g)),
          endpoints-IsAddress approved endpoints f,
        )
        | inr g ↦ (
          (a, normalized-Denotes value a e, inr (classify-IsPublic a (ground arith))),
          endpoints-IsAddress approved endpoints f,
        )
      ]
    ]
  ]

  IsAllowed-allowed :
      (approved : List String) (value : String)
      → All IsAddress approved
      → IsAllowed approved value
      → (classify_destination ip approved value).allowed ≡ true
  unfolding classify_destination
  IsAllowed-allowed approved value h (a, d, why) =
      let (endpoints, f) = IsAddress-endpoints approved h in
      let e = Denotes-normalized value a d in
      elim (Bool-cases (any (ip.same a) endpoints)) [
        | inl g ↦ ground arith
        | inr g ↦ elim why [
          | inl among ↦ absurd (ground (arith, IsAmong-endpoints approved endpoints a f among))
          | inr public ↦ ground (arith, IsPublic-classify a public)
        ]
      ]

  every-IsAllowed :
      (approved addresses : List String)
      → all (λ d. d.allowed) (map (classify_destination ip approved) addresses) ≡ true
      → All (IsAllowed approved) addresses
  every-IsAllowed approved [] h = tt
  every-IsAllowed approved (x ∷ l) h = (
    (allowed-IsAllowed approved x (ground arith)).0,
    every-IsAllowed approved l
        (ground (arith, Bool-cases (classify_destination ip approved x).allowed)),
  )

  IsAllowed-every :
      (approved addresses : List String)
      → All IsAddress approved
      → All (IsAllowed approved) addresses
      → all (λ d. d.allowed) (map (classify_destination ip approved) addresses) ≡ true
  IsAllowed-every approved [] h k = refl
  IsAllowed-every approved (x ∷ l) h (k, ks) =
      ground (arith, IsAllowed-allowed approved x h k, IsAllowed-every approved l h ks)

  -- Destinations are all allowed exactly if there is one at least, every approved DNS endpoint is the
  -- text of an address, and each destination is the text of an address that, an IPv4-mapped address
  -- replaced by the IPv4 address, is the same as an endpoint or is global, and not loopback, private,
  -- link-local, multicast, unspecified or of the 6to4 relays.
  pub all_destinations_allowed_exact :
      (approved addresses : List String)
      → (all_destinations_allowed ip approved addresses ≡ true)
        ↔ ((addresses ≢ []) × All IsAddress approved × All (IsAllowed approved) addresses)
  unfolding all_destinations_allowed validate_resolved_addresses
  all_destinations_allowed_exact approved [] =
      (λ h. absurd (ground arith), λ (ne, h, k). absurd (ne refl))
  all_destinations_allowed_exact approved (x ∷ l) = (
    λ h. (
      λ e. cc,
      (allowed-IsAllowed approved x (ground arith)).1,
      every-IsAllowed approved (x ∷ l) h,
    ),
    λ (ne, h, k). ground (arith, IsAllowed-every approved (x ∷ l) h k),
  )
