-- ===== src/Uptime/Definition.antt =====
-- internal/domain/uptime_monitor.go, the definitions of monitors, and internal/app/uptime/uptime.go,
-- `CreateHTTPMonitor` and `CreateHeartbeatMonitor`. A duration is an int64 of nanoseconds; the
-- manager, which may be nil, is its one method.
mod Tests
use gopnique.Base.{
  ℕ, ◌*◌, ◌/◌, ◌%◌, ◌^◌, Bool, true, false, not, ◌||◌, Option, none, some, ltb, all, is_empty,
  if◌then◌else◌,
}
use gopnique.Base.Action.{Action}
use gopnique.Base.Int.{ℤ, pos, negsuc, pos_part, ltbℤ, int64_of, to_u64}
use gopnique.Base.Result.{Result, ok, err, ◌>>=◌, ◌>>◌, reject_if}
use gopnique.Base.Text.{Text, codes, trim_space, valid_utf8, byte_len, is_control, to_lower}
use gopnique.Outbound.{Net, Url, Resolver, DestinationUrl, invalid_scheme, validate_destination}

abbrev pub second_ns : ℕ
second_ns = 1000000000

abbrev pub monitor_name_max_bytes : ℕ
monitor_name_max_bytes = 128

-- `time.Duration(n) * time.Second`, which wraps
unfoldable pub seconds : ℤ → ℤ
seconds n = int64_of ((to_u64 n * second_ns) % 2 ^ 64)

-- `int(d / time.Second)`, for the durations that passed a check
abbrev pub whole_seconds : ℤ → ℤ
whole_seconds d = pos (pos_part d / second_ns)

-- `NewMonitorName`
unfoldable pub new_monitor_name : Text → Result Text
new_monitor_name input = do
  let value = trim_space input
  reject_if (is_empty value) "monitor name is required"
  reject_if (not (valid_utf8 value)) "monitor name must be valid utf-8"
  reject_if (ltb monitor_name_max_bytes (byte_len value)) "monitor name is too long"
  reject_if (not (all (λ c. not (is_control c)) value))
      "monitor name must not contain control characters"
  ok value

unfoldable pub new_monitor_interval : ℤ → Result ℤ
new_monitor_interval interval =
    if ltbℤ interval (pos (60 * second_ns))
    then err "monitor interval must be at least 60 seconds"
    else if ltbℤ (pos (86400 * second_ns)) interval
    then err "monitor interval must be at most 24 hours"
    else ok interval

unfoldable pub new_monitor_timeout : ℤ → Result ℤ
new_monitor_timeout timeout =
    if ltbℤ timeout (pos (1 * second_ns))
    then err "monitor timeout must be at least 1 second"
    else if ltbℤ (pos (30 * second_ns)) timeout
    then err "monitor timeout must be at most 30 seconds"
    else ok timeout

unfoldable pub new_monitor_grace : ℤ → Result ℤ
new_monitor_grace grace =
    if ltbℤ grace (pos (60 * second_ns))
    then err "monitor grace must be at least 60 seconds"
    else if ltbℤ (pos (86400 * second_ns)) grace
    then err "monitor grace must be at most 24 hours"
    else ok grace

-- the checks of `NormalizeHTTPMonitorURL` behind `url.Parse`
abbrev pub normalized_url : Net → Option Url → Result Text
normalized_url net none = err "monitor url is invalid"
normalized_url net (some parsed) = do
  let scheme = to_lower net.lower parsed.scheme
  reject_if (invalid_scheme scheme) "monitor url must use http or https"
  reject_if parsed.has_user "monitor url userinfo is not allowed"
  reject_if (is_empty parsed.host || is_empty (net.hostname parsed)) "monitor url host is required"
  reject_if (not (is_empty parsed.fragment)) "monitor url fragment is not allowed"
  ok (net.url_string (record parsed { scheme = scheme; host = to_lower net.lower parsed.host }))

unfoldable pub normalize_http_monitor_url : Net → Text → Result Text
normalize_http_monitor_url net input =
    let value = trim_space input in
    if is_empty value
    then err "monitor url is required"
    else normalized_url net (net.parse_url value)

pub record HttpMonitorDefinition : Type 0 where
  pub name : Text
  pub url : Text
  pub interval : ℤ
  pub timeout : ℤ

unfoldable pub new_http_monitor_definition :
    Net → Text → Text → ℤ → ℤ → Result HttpMonitorDefinition
new_http_monitor_definition net name target_url interval timeout = do
  monitor_name ← new_monitor_name name
  monitor_url ← normalize_http_monitor_url net target_url
  monitor_interval ← new_monitor_interval interval
  monitor_timeout ← new_monitor_timeout timeout
  ok (record {
    name = monitor_name;
    url = monitor_url;
    interval = monitor_interval;
    timeout = monitor_timeout;
  })

pub record Scope : Type 0 where
  pub organization_id : Text
  pub project_id : Text

pub record CreateHttpMonitorCommand : Type 0 where
  pub scope : Scope
  pub actor_id : Text
  pub name : Text
  pub url : Text
  pub interval_seconds : ℤ
  pub timeout_seconds : ℤ

pub record CreateHeartbeatMonitorCommand : Type 0 where
  pub scope : Scope
  pub actor_id : Text
  pub name : Text
  pub interval_seconds : ℤ
  pub grace_seconds : ℤ

unfoldable pub require_scope : Scope → Result (Unit {0})
require_scope scope =
    if is_empty scope.organization_id || is_empty scope.project_id
    then err "uptime scope is required"
    else ok tt

unfoldable pub monitor_definition :
    Net → CreateHttpMonitorCommand → DestinationUrl → Result HttpMonitorDefinition
monitor_definition net command destination =
    new_http_monitor_definition net command.name destination.value
      (seconds command.interval_seconds) (seconds command.timeout_seconds)

-- what `CreateHTTPMonitor` hands to the manager
unfoldable pub normalized_command :
    Net → Resolver → CreateHttpMonitorCommand → Result CreateHttpMonitorCommand
normalized_command net resolver command = do
  require_scope command.scope
  reject_if (is_empty command.actor_id) "monitor actor is required"
  destination ← validate_destination net resolver command.url
  definition ← monitor_definition net command destination
  ok (record {
    scope = command.scope;
    actor_id = command.actor_id;
    name = definition.name;
    url = definition.url;
    interval_seconds = whole_seconds definition.interval;
    timeout_seconds = whole_seconds definition.timeout;
  })

unfoldable pub heartbeat_command :
    CreateHeartbeatMonitorCommand → Result CreateHeartbeatMonitorCommand
heartbeat_command command = do
  name ← new_monitor_name command.name
  interval ← new_monitor_interval (seconds command.interval_seconds)
  grace ← new_monitor_grace (seconds command.grace_seconds)
  ok (record {
    scope = command.scope;
    actor_id = command.actor_id;
    name = name;
    interval_seconds = whole_seconds interval;
    grace_seconds = whole_seconds grace;
  })

module _ {S M C : Type 0} where
  -- the manager's call, for a command that passed
  abbrev pub then_create : Option (C → Action S M) → Result C → Action S M
  then_create none checked s = (err "uptime manager is required", s)
  then_create (some create) (err e) s = (err e, s)
  then_create (some create) (ok command) s = create command s

module _ {S M : Type 0} where
  unfoldable pub create_http_monitor :
      Net
      → Resolver
      → Option (CreateHttpMonitorCommand → Action S M)
      → CreateHttpMonitorCommand
      → Action S M
  create_http_monitor net resolver manager command =
      then_create manager (normalized_command net resolver command)

  unfoldable pub create_heartbeat_monitor :
      Option (CreateHeartbeatMonitorCommand → Action S M)
      → CreateHeartbeatMonitorCommand
      → Action S M
  create_heartbeat_monitor manager command = then_create manager (
      require_scope command.scope
      >> (reject_if (is_empty command.actor_id) "monitor actor is required"
          >> heartbeat_command command))
