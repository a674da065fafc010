-- ===== src/Network/Destinations.antt =====
-- network.py: the classification of destinations.
use notebook_launcher.Prelude.{
  String, Bool, true, false, not, ◌&&◌, Option, none, some, List, [], ◌∷◌, map, any, all,
  if◌then◌else◌,
}

-- What the code asks of Python's `ipaddress`; `in_6to4_relay` is the test of
-- `IANA_NON_GLOBAL_NETWORKS`.
pub record Addresses : Type 1 where
  pub Address : Type 0
  pub ip_address : String → Option Address
  pub ipv4_mapped : Address → Option Address
  pub same : Address → Address → Bool
  pub is_loopback : Address → Bool
  pub is_private : Address → Bool
  pub is_link_local : Address → Bool
  pub is_multicast : Address → Bool
  pub is_unspecified : Address → Bool
  pub is_global : Address → Bool
  pub in_6to4_relay : Address → Bool

pub data Reason : Type 0 where
  invalid_ip invalid_dns_endpoint approved_dns_endpoint loopback private link_local : Reason
  multicast unspecified non_global public_internet : Reason

pub record DestinationDecision : Type 0 where
  pub allowed : Bool
  pub reason : Reason

module _ (ip : Addresses) where
  abbrev pub is_global_unicast : ip.Address → Bool
  is_global_unicast a =
      not (ip.in_6to4_relay a)
      && (ip.is_global a && not (ip.is_multicast a) && not (ip.is_unspecified a))

  abbrev pub unmapped : ip.Address → Option ip.Address → ip.Address
  unmapped a none = a
  unmapped a (some b) = b

  abbrev pub normalized_address : String → Option ip.Address
  normalized_address value = elim (ip.ip_address value) [
    | none ↦ none
    | some a ↦ some (unmapped a (ip.ipv4_mapped a))
  ]

  -- the set of the approved endpoints, or nothing where one is no address
  abbrev pub normalized_all : List String → Option (List ip.Address)
  normalized_all [] = some []
  normalized_all (x ∷ l) =
      let rest = normalized_all l in
      elim (normalized_address x) [
        | none ↦ none
        | some a ↦ elim rest [ none ↦ none | some s ↦ some (a ∷ s) ]
      ]

  abbrev pub decide : Bool → Reason → DestinationDecision
  decide allowed reason = record { allowed = allowed; reason = reason }

  abbrev pub classify_address : ip.Address → DestinationDecision
  classify_address a =
      if ip.is_loopback a
      then decide false loopback
      else if ip.is_private a
      then decide false private
      else if ip.is_link_local a
      then decide false link_local
      else if ip.is_multicast a
      then decide false multicast
      else if ip.is_unspecified a
      then decide false unspecified
      else if not (is_global_unicast a)
      then decide false non_global
      else decide true public_internet

  unfoldable pub classify_destination : List String → String → DestinationDecision
  classify_destination approved value = elim (normalized_address value) [
    | none ↦ decide false invalid_ip
    | some a ↦ elim (normalized_all approved) [
      | none ↦ decide false invalid_dns_endpoint
      | some endpoints ↦
          if any (ip.same a) endpoints
          then decide true approved_dns_endpoint
          else classify_address a
    ]
  ]

  unfoldable pub validate_resolved_addresses : List String → List String → List DestinationDecision
  validate_resolved_addresses approved addresses = map (classify_destination approved) addresses

  abbrev pub is_nonempty : List DestinationDecision → Bool
  is_nonempty [] = false
  is_nonempty (_ ∷ _) = true

  unfoldable pub all_destinations_allowed : List String → List String → Bool
  unfolding validate_resolved_addresses
  all_destinations_allowed approved addresses =
      let decisions = validate_resolved_addresses approved addresses in
      is_nonempty decisions && all (λ d. d.allowed) decisions
