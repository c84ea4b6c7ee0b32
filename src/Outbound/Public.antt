-- ===== src/Outbound/Public.antt =====
-- What is known of a destination that passed the checks of url.go.
use gopnique.Base.{
  ◌≡◌, ◌⊎◌, inl, inr, refl, true, false, ◌||◌, List, [], ◌∷◌, Option, none, some, All, is_empty,
  arith, Bool-cases,
}
use gopnique.Base.Result.{Result, ok, >>=-eq-ok}
use gopnique.Base.Text.{Text, codes, text_eq, trim_space}
use gopnique.Outbound.{
  Addr, Url, Net, DestinationUrl, Resolver, has_suffix, allowed_public_addr, blocked_host_name,
  checked_url, parse_destination_url, check_addresses, resolved_destination,
  validate_resolved_destination, validate_destination, is_forbidden_ip, parsed_destination,
  looked_up,
}

-- an address of the public internet
pub record IsPublic (addr : Addr) : Type 0 where
  pub valid : addr.is_valid ≡ true
  pub global : addr.is_global_unicast ≡ true
  pub not_private : addr.is_private ≡ false
  pub not_loopback : addr.is_loopback ≡ false
  pub not_link_local : addr.is_link_local_unicast ≡ false
  pub specified : addr.is_unspecified ≡ false

-- a host that is none of the names of the machine itself or of a cloud's metadata service
pub record IsOutside (host : Text) : Type 0 where
  pub no_localhost : text_eq host (codes "localhost") ≡ false
  pub not_below_localhost : has_suffix (codes ".localhost") host ≡ false
  pub no_metadata : text_eq host (codes "metadata.google.internal") ≡ false

IsOutside-blocked_host_name : (host : Text) → blocked_host_name host ≡ false → IsOutside host
unfolding blocked_host_name
IsOutside-blocked_host_name host h = ground arith

-- what the host stood for when it was checked: the address that it spells, or those it resolved to
abbrev pub GoesPublic : Net → Resolver → Text → Type 0
GoesPublic net resolver host =
    ((addr : Addr) × (net.parse_addr host ≡ some addr) × IsPublic addr)
    ⊎ ((lookup_host : Text → Result (List Addr)) × (addresses : List Addr) × (net.parse_addr host
          ≡ none)
        × (resolver ≡ some lookup_host)
        × (lookup_host host ≡ ok addresses)
        × (is_empty addresses ≡ false)
        × All IsPublic addresses)

allowed-IsPublic : (addr : Addr) → allowed_public_addr addr ≡ true → IsPublic addr
unfolding allowed_public_addr
allowed-IsPublic addr h = ground arith

check_addresses-ok :
    (d e : DestinationUrl) (addresses : List Addr)
    → check_addresses d addresses ≡ ok e
    → All IsPublic addresses
unfolding check_addresses
check_addresses-ok d e [] h = tt
check_addresses-ok d e (a ∷ addresses) h = elim (Bool-cases (allowed_public_addr a)) [
  | inl p ↦ (allowed-IsPublic a p, check_addresses-ok d e addresses (rw p at h))
  | inr p ↦ absurd (cc (rw p at h))
]

check_addresses-same :
    (d e : DestinationUrl) (addresses : List Addr) → check_addresses d addresses ≡ ok e → e ≡ d
unfolding check_addresses
check_addresses-same d e [] h = cc h
check_addresses-same d e (a ∷ addresses) h = elim (Bool-cases (allowed_public_addr a)) [
  | inl p ↦ check_addresses-same d e addresses (rw p at h)
  | inr p ↦ absurd (cc (rw p at h))
]

resolved-GoesPublic :
    (net : Net) (resolver : Resolver) (d e : DestinationUrl)
    → is_forbidden_ip (net.parse_addr d.host) ≡ false
    → validate_resolved_destination net resolver d ≡ ok e
    → (e ≡ d) × GoesPublic net resolver d.host
unfolding validate_resolved_destination
resolved-GoesPublic net resolver d e safe h =
    elim (Bool-cases (is_empty d.value || is_empty d.host)) [
      | inl p ↦ absurd (cc (rw p at h))
      | inr p ↦ looked_up-GoesPublic resolver (net.parse_addr d.host) refl safe (rw p at h)
    ]
  where
    addresses-ok :
        (addresses : List Addr)
        → resolved_destination d addresses ≡ ok e
        → (e ≡ d) × (is_empty addresses ≡ false) × All IsPublic addresses
    addresses-ok [] g = cc g
    addresses-ok (a ∷ addresses) g =
        (check_addresses-same d e (a ∷ addresses) g, refl, check_addresses-ok d e (a ∷ addresses) g)

    looked_up-GoesPublic :
        (r : Resolver) (literal : Option Addr)
        → net.parse_addr d.host ≡ literal
        → is_forbidden_ip literal ≡ false
        → looked_up r d literal ≡ ok e
        → (e ≡ d) × GoesPublic net r d.host
    looked_up-GoesPublic r (some addr) at_ public g =
        (cc g, inl (addr, at_, allowed-IsPublic addr (ground arith)))
    looked_up-GoesPublic none none at_ public g = cc g
    looked_up-GoesPublic (some lookup_host) none at_ public g =
        let (addresses, found, checked) =
          >>=-eq-ok (lookup_host d.host) (resolved_destination d) g in
        let (same, some_, all_) = addresses-ok addresses checked in
        (same, inr (lookup_host, addresses, at_, refl, found, some_, all_))

module _ (net : Net) where
  checked_url-ok :
      (parsed : Url) (d : DestinationUrl)
      → checked_url net parsed ≡ ok d
      → (blocked_host_name d.host ≡ false) × (is_forbidden_ip (net.parse_addr d.host) ≡ false)
  unfolding checked_url
  checked_url-ok parsed d h = ground arith

  pub parse_destination_url-ok :
      (input : Text) (d : DestinationUrl)
      → parse_destination_url net input ≡ ok d
      → (blocked_host_name d.host ≡ false) × (is_forbidden_ip (net.parse_addr d.host) ≡ false)
  unfolding parse_destination_url
  parse_destination_url-ok input d h = elim (Bool-cases (is_empty (trim_space input))) [
    | inl p ↦ absurd (cc (rw p at h))
    | inr p ↦ parsed-ok (net.parse_url (trim_space input)) (rw p at h)
  ]
    where
      parsed-ok :
          (u : Option Url)
          → parsed_destination net u ≡ ok d
          → (blocked_host_name d.host ≡ false) × (is_forbidden_ip (net.parse_addr d.host) ≡ false)
      parsed-ok none g = cc g
      parsed-ok (some parsed) g = checked_url-ok parsed d g

  -- A text that is accepted as a destination names no internal host, and the addresses that the host
  -- stood for when it was checked, of which there is at least one, are all public: the one that the
  -- host spells, or every one that this lookup gave for it. A later lookup is not spoken of.
  pub validate_destination-GoesPublic :
      (resolver : Resolver) (input : Text) (d : DestinationUrl)
      → validate_destination net resolver input ≡ ok d
      → IsOutside d.host × GoesPublic net resolver d.host
  unfolding validate_destination
  validate_destination-GoesPublic resolver input d h =
      let (parsed, e, g) =
        >>=-eq-ok (parse_destination_url net input) (validate_resolved_destination net resolver)
          h in
      let (named, literal) = parse_destination_url-ok input parsed e in
      let (same, goes) = resolved-GoesPublic net resolver parsed d literal g in
      rw same (IsOutside-blocked_host_name parsed.host named, goes)
