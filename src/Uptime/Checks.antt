-- ===== src/Uptime/Checks.antt =====
-- internal/app/uptime/uptime.go: the two check loops on the ports of a store whose state is `S`. The
-- probe and the resolver are parameters; a store or a probe that is nil is not modelled.
use gopnique.Base.{
  none, some, ℕ, ◌+◌, Bool, not, List, [], ◌∷◌, ◌==◌, length, is_empty, if◌then◌else◌,
}
use gopnique.Base.Action.{Action, ◌>>=◌, return_, lift}
use gopnique.Base.Int.{ℤ, pos, pos_part, lebℤ, ltbℤ}
use gopnique.Base.Result.{Result, ok, err}
use gopnique.Base.Text.{Text, codes}
use gopnique.Outbound.{Net, Resolver, DestinationUrl, validate_resolved_destination}
use gopnique.Uptime.Monitor.{
  MonitorState, down, same_state, monitor_state_from_http_status, Observation, CheckResult,
}

abbrev pub max_check_limit : ℤ
max_check_limit = pos 100

-- `HTTPMonitorCheckTarget`; the project of the monitor goes with its id
pub record CheckTarget : Type 0 where
  pub monitor_id : Text
  pub url : DestinationUrl
  pub timeout : ℕ

pub record CheckDueCommand : Type 0 where
  pub now : ℕ
  pub limit : ℤ

pub record CheckSummary : Type 0 where
  pub claimed : ℕ
  pub checked : ℕ
  pub up : ℕ
  pub down : ℕ
  pub failures : ℕ

pub record HttpProbeResult : Type 0 where
  pub status_code : ℕ
  pub duration : ℕ

-- `NewHTTPProbeResult`; the numbers are Go's ints
unfoldable pub new_http_probe_result : ℤ → ℤ → Result HttpProbeResult
new_http_probe_result status_code duration =
    if lebℤ status_code (pos 0)
    then err "http status code is required"
    else if ltbℤ duration (pos 0)
    then err "http probe duration must not be negative"
    else ok (record { status_code = pos_part status_code; duration = pos_part duration })

-- `CheckStore`
pub record CheckStore (S : Type 0) : Type 0 where
  pub claim_due_http_monitors : ℕ → ℤ → Action S (List CheckTarget)
  pub record_http_monitor_check : Text → Observation → Action S CheckResult
  pub claim_overdue_heartbeat_monitors : ℕ → ℤ → Action S (List Text)
  pub record_heartbeat_timeout : Text → ℕ → Text → Action S CheckResult

unfoldable pub normalize_limit : ℤ → ℤ
normalize_limit limit =
    if lebℤ limit (pos 0)
    then max_check_limit
    else if ltbℤ max_check_limit limit
    then max_check_limit
    else limit

abbrev pub failed_observation : ℕ → Text → Observation
failed_observation now message = record {
  checked_at = now;
  state = down;
  status_code = 0;
  error = message;
}

abbrev pub probed : ℕ → Result HttpProbeResult → Observation
probed now (err e) = failed_observation now (codes e)
probed now (ok result) = record {
  checked_at = now;
  state = monitor_state_from_http_status result.status_code;
  status_code = result.status_code;
  error = [];
}

abbrev pub resolved_check :
    (DestinationUrl → ℕ → Result HttpProbeResult)
    → ℕ
    → CheckTarget
    → Result DestinationUrl
    → Observation
resolved_check get now target (err e) = failed_observation now (codes e)
resolved_check get now target (ok resolved) = probed now (get target.url target.timeout)

unfoldable pub check_http_monitor :
    Net → Resolver → (DestinationUrl → ℕ → Result HttpProbeResult) → ℕ → CheckTarget → Observation
check_http_monitor net resolver get now target =
    resolved_check get now target (validate_resolved_destination net resolver target.url)

-- `summary.Up++` under a test
abbrev pub plus_if : Bool → ℕ → ℕ
plus_if test n = if test then n + 1 else n

unfoldable pub count_observation : CheckSummary → Observation → CheckSummary
count_observation summary observation = record summary {
  checked = summary.checked + 1;
  up = plus_if (same_state observation.state MonitorState.up) summary.up;
  down = plus_if (same_state observation.state MonitorState.down) summary.down;
  failures = plus_if (not (is_empty observation.error)) summary.failures;
}

unfoldable pub count_heartbeat_timeout : CheckSummary → Text → CheckSummary
count_heartbeat_timeout summary error = record summary {
  checked = summary.checked + 1;
  down = summary.down + 1;
  failures = plus_if (not (is_empty error)) summary.failures;
}

-- the tests that the two loops share
unfoldable pub validate_check_command : CheckDueCommand → Result (Unit {0})
validate_check_command command =
    if command.now == 0
    then err "uptime check time is required"
    else if lebℤ command.limit (pos 0)
    then err "uptime check limit must be positive"
    else ok tt

-- `validateCheckInputs`, for a store and a probe that are not nil
unfoldable pub validate_check_inputs : Resolver → CheckDueCommand → Result (Unit {0})
validate_check_inputs none command = err "uptime resolver is required"
validate_check_inputs (some lookup_host) command = validate_check_command command

abbrev pub empty_summary : ℕ → CheckSummary
empty_summary claimed = record { claimed = claimed; checked = 0; up = 0; down = 0; failures = 0 }

module _ {S : Type 0} (store : CheckStore S) where
  unfoldable pub check_targets :
      (CheckTarget → Observation) → List CheckTarget → CheckSummary → Action S CheckSummary
  check_targets observe [] summary = return_ summary
  check_targets observe (target ∷ targets) summary =
      let observation = observe target in
      store.record_http_monitor_check target.monitor_id observation >>= λ result.
      check_targets observe targets (count_observation summary observation)

  unfoldable pub check_due_http_monitors :
      Net
      → Resolver
      → (DestinationUrl → ℕ → Result HttpProbeResult)
      → CheckDueCommand
      → Action S CheckSummary
  check_due_http_monitors net resolver get command =
      lift (validate_check_inputs resolver command) >>= λ u.
      store.claim_due_http_monitors command.now (normalize_limit command.limit) >>= λ targets.
      check_targets (check_http_monitor net resolver get command.now) targets
        (empty_summary (length targets))

  unfoldable pub time_out_targets : ℕ → List Text → CheckSummary → Action S CheckSummary
  time_out_targets now [] summary = return_ summary
  time_out_targets now (monitor_id ∷ targets) summary =
      let error = codes "heartbeat overdue" in
      store.record_heartbeat_timeout monitor_id now error >>= λ result.
      time_out_targets now targets (count_heartbeat_timeout summary error)

  unfoldable pub check_due_heartbeat_monitors : CheckDueCommand → Action S CheckSummary
  check_due_heartbeat_monitors command = lift (validate_check_command command) >>= λ u.
      store.claim_overdue_heartbeat_monitors command.now (normalize_limit command.limit)
      >>= λ targets. time_out_targets command.now targets (empty_summary (length targets))
