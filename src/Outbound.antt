-- ===== src/Outbound.antt =====
-- internal/app/outbound/url.go: which addresses the server may send requests to. `net/url` and
-- `net/netip` are parameters: an address is what their predicates say of it.
pub mod Public
mod Tests
use gopnique.Base.{
  Bool, true, false, not, ◌&&◌, ◌||◌, List, [], ◌∷◌, Option, none, some, is_empty, ℕ, if◌then◌else◌,
}
use gopnique.Base.Result.{Result, ok, err, ◌>>=◌, ◌>>◌, reject_if}
use gopnique.Base.Text.{Text, codes, text_eq, trim_space, to_lower, contains_any}

-- `netip.Addr`
pub record Addr : Type 0 where
  pub is_valid : Bool
  pub is_global_unicast : Bool
  pub is_private : Bool
  pub is_loopback : Bool
  pub is_link_local_unicast : Bool
  pub is_unspecified : Bool

-- `url.URL`: `rest` is all that is not read here
pub record Url : Type 0 where
  pub scheme : Text
  pub has_user : Bool
  pub host : Text
  pub fragment : Text
  pub rest : Text

-- `url.Parse`, `URL.Hostname`, `URL.String`, `netip.ParseAddr` and the lower case beyond ASCII
pub record Net : Type 0 where
  pub parse_url : Text → Option Url
  pub hostname : Url → Text
  pub url_string : Url → Text
  pub parse_addr : Text → Option Addr
  pub lower : ℕ → ℕ

pub record DestinationUrl : Type 0 where
  pub value : Text
  pub host : Text

-- `Resolver`, which may be nil; `LookupHost` is its one method
abbrev pub Resolver : Type 0
Resolver = Option (Text → Result (List Addr))

unfoldable pub has_suffix : Text → Text → Bool
has_suffix suffix [] = is_empty suffix
has_suffix suffix (c ∷ s) = text_eq suffix (c ∷ s) || has_suffix suffix s

unfoldable pub allowed_public_addr : Addr → Bool
allowed_public_addr addr =
    addr.is_valid
    && addr.is_global_unicast
    && not addr.is_private
    && not addr.is_loopback
    && not addr.is_link_local_unicast
    && not addr.is_unspecified

unfoldable pub blocked_host_name : Text → Bool
blocked_host_name host =
    text_eq host (codes "localhost")
    || has_suffix (codes ".localhost") host
    || text_eq host (codes "metadata.google.internal")

-- `addr, ok := parseHostIP(host); ok && !allowedPublicAddr(addr)`
abbrev pub is_forbidden_ip : Option Addr → Bool
is_forbidden_ip none = false
is_forbidden_ip (some addr) = not (allowed_public_addr addr)

abbrev pub invalid_scheme : Text → Bool
invalid_scheme scheme = not (text_eq scheme (codes "http")) && not (text_eq scheme (codes "https"))

-- the checks behind `url.Parse`
unfoldable pub checked_url : Net → Url → Result DestinationUrl
checked_url net parsed = do
  let scheme = to_lower net.lower parsed.scheme
  let hostname = net.hostname parsed
  let host = to_lower net.lower (trim_space hostname)
  reject_if (invalid_scheme scheme) "destination url must use http or https"
  reject_if parsed.has_user "destination url userinfo is not allowed"
  reject_if (is_empty parsed.host || is_empty hostname) "destination url host is required"
  reject_if (contains_any (codes "\\") parsed.host) "destination url host is invalid"
  reject_if (not (is_empty parsed.fragment)) "destination url fragment is not allowed"
  reject_if (blocked_host_name host) "destination url host is not allowed"
  reject_if (is_forbidden_ip (net.parse_addr host))
      "destination url host resolves to a private address"
  ok (record {
    value =
        net.url_string (record parsed { scheme = scheme; host = to_lower net.lower parsed.host });
    host = host;
  })

abbrev pub parsed_destination : Net → Option Url → Result DestinationUrl
parsed_destination net none = err "destination url is invalid"
parsed_destination net (some parsed) = checked_url net parsed

unfoldable pub parse_destination_url : Net → Text → Result DestinationUrl
parse_destination_url net input =
    let value = trim_space input in
    if is_empty value
    then err "destination url is required"
    else parsed_destination net (net.parse_url value)

unfoldable pub check_addresses : DestinationUrl → List Addr → Result DestinationUrl
check_addresses destination [] = ok destination
check_addresses destination (address ∷ addresses) =
    let rest = check_addresses destination addresses in
    if allowed_public_addr address
    then rest
    else err "destination url host resolves to a private address"

abbrev pub resolved_destination : DestinationUrl → List Addr → Result DestinationUrl
resolved_destination destination addresses =
    if is_empty addresses
    then err "destination url host has no addresses"
    else check_addresses destination addresses

abbrev pub looked_up : Resolver → DestinationUrl → Option Addr → Result DestinationUrl
looked_up resolver destination (some addr) = ok destination
looked_up none destination none = err "resolver is required"
looked_up (some lookup_host) destination none =
    lookup_host destination.host >>= resolved_destination destination

unfoldable pub validate_resolved_destination :
    Net → Resolver → DestinationUrl → Result DestinationUrl
validate_resolved_destination net resolver destination =
    if is_empty destination.value || is_empty destination.host
    then err "destination url is required"
    else looked_up resolver destination (net.parse_addr destination.host)

unfoldable pub validate_destination : Net → Resolver → Text → Result DestinationUrl
validate_destination net resolver input =
    parse_destination_url net input >>= validate_resolved_destination net resolver
