-- ===== src/Outbound/Tests.antt =====
-- Destinations on a small network: a host name in the place of a URL, one name that resolves to a
-- public address and one that resolves to a private one as well.
use gopnique.Base.{◌≡◌, refl, true, false, [], ◌∷◌, none, some, if◌then◌else◌}
use gopnique.Base.Result.{ok, err}
use gopnique.Base.Text.{
  codes, text_eq, is_space, trim_left, trim_right, trim_space, to_lower, contains_any,
}
use gopnique.Outbound.{
  Addr, Net, DestinationUrl, Resolver, has_suffix, allowed_public_addr, blocked_host_name,
  checked_url, parse_destination_url, check_addresses, validate_resolved_destination,
  validate_destination,
}
use gopnique.Outbound.Public.{IsOutside, GoesPublic, validate_destination-GoesPublic}

running : Unit {0}
unfolding text_eq is_space trim_left trim_right trim_space to_lower contains_any has_suffix
    allowed_public_addr blocked_host_name checked_url parse_destination_url check_addresses
    validate_resolved_destination validate_destination
running = tt

abbrev public_addr : Addr
public_addr = record {
  is_valid = true;
  is_global_unicast = true;
  is_private = false;
  is_loopback = false;
  is_link_local_unicast = false;
  is_unspecified = false;
}

abbrev net : Net
net = record {
  parse_url = λ s.
      some (record { scheme = codes "HTTP"; has_user = false; host = s; fragment = []; rest = [] });
  hostname = λ u. u.host;
  url_string = λ u. u.scheme;
  parse_addr = λ s. none;
  lower = λ c. c;
}

abbrev resolver : Resolver
resolver = some λ host.
    if text_eq host (codes "a.io")
    then ok (public_addr ∷ [])
    else ok (public_addr ∷ record public_addr { is_private = true } ∷ [])

abbrev accepted : DestinationUrl
accepted = record { value = codes "http"; host = codes "a.io" }

resolves_to_private :
    validate_destination net resolver (codes "b.io")
    ≡ err "destination url host resolves to a private address"
unfolding running
resolves_to_private = refl

names_metadata :
    validate_destination net resolver (codes "Metadata.Google.internal")
    ≡ err "destination url host is not allowed"
unfolding running
names_metadata = refl

is_accepted : validate_destination net resolver (codes " A.io ") ≡ ok accepted
unfolding running
is_accepted = refl

validate_destination-GoesPublic_example :
    IsOutside (codes "a.io") × GoesPublic net resolver (codes "a.io")
validate_destination-GoesPublic_example =
    validate_destination-GoesPublic net resolver (codes " A.io ") accepted is_accepted
