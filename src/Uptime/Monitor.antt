-- ===== src/Uptime/Monitor.antt =====
-- internal/adapters/postgres/uptime.go, `recordHTTPMonitorCheckInTx`, `recordHeartbeatCheckInInTx` and
-- `recordHeartbeatTimeoutInTx`, on the rows of one monitor, where the statements of the transaction
-- succeed; and the states of internal/domain/uptime_monitor.go. A time is in microseconds; random UUIDs
-- are arguments.
use gopnique.Base.{
  ℕ, ◌+◌, ◌*◌, Bool, true, false, not, ◌&&◌, ◌||◌, List, [], ◌∷◌, ◌++◌, Option, none, some, leb,
  ltb, is_empty, if◌then◌else◌,
}
use gopnique.Base.Int.{pos}
use gopnique.Base.Text.{Text, codes}
use gopnique.Notify.Plan.{decimal}

pub data MonitorState : Type 0 where
  unknown : MonitorState
  up : MonitorState
  down : MonitorState

unfoldable pub same_state : MonitorState → MonitorState → Bool
same_state unknown unknown = true
same_state up up = true
same_state down down = true
same_state a b = false

unfoldable pub monitor_state_changed : MonitorState → MonitorState → Bool
monitor_state_changed previous next = not (same_state previous next)

unfoldable pub monitor_state_from_http_status : ℕ → MonitorState
monitor_state_from_http_status status_code =
    if leb 200 status_code && ltb status_code 400 then up else down

-- `HTTPCheckObservation`
pub record Observation : Type 0 where
  pub checked_at : ℕ
  pub state : MonitorState
  pub status_code : ℕ
  pub error : Text

-- a row of uptime_monitor_checks
pub record Check : Type 0 where
  pub id_ : Text
  pub state : MonitorState
  pub http_status : Option ℕ
  pub error : Text
  pub checked_at : ℕ

-- a row of uptime_monitor_incidents
pub record Incident : Type 0 where
  pub id_ : Text
  pub opened_at : ℕ
  pub resolved_at : Option ℕ
  pub last_check_id : Text
  pub reason : Text

-- the row of a monitor in uptime_monitors, with its checks, incidents and audit events
pub record Monitor : Type 0 where
  pub current_state : MonitorState
  pub interval_seconds : ℕ
  pub heartbeat_grace_seconds : ℕ
  pub last_checked_at : Option ℕ
  pub last_check_in_at : Option ℕ
  pub next_check_at : ℕ
  pub check_lease_until : Option ℕ
  pub checks : List Check
  pub incidents : List Incident
  pub audit : List (MonitorState × MonitorState)

abbrev pub second : ℕ
second = 1000000

abbrev pub nullable_http_status : ℕ → Option ℕ
nullable_http_status status_code = if leb status_code 0 then none else some status_code

unfoldable pub insert_monitor_check : Text → Observation → Monitor → Monitor
insert_monitor_check check_id observation m = record m {
  checks =
      m.checks
      ++ record {
        id_ = check_id;
        state = observation.state;
        http_status = nullable_http_status observation.status_code;
        error = observation.error;
        checked_at = observation.checked_at;
      }
        ∷ [];
}

unfoldable pub update_monitor_after_check : Observation → ℕ → Monitor → Monitor
update_monitor_after_check observation interval_seconds m = record m {
  current_state = observation.state;
  last_checked_at = some observation.checked_at;
  next_check_at = observation.checked_at + interval_seconds * second;
  check_lease_until = none;
}

unfoldable pub update_heartbeat_after_check_in : Observation → Monitor → Monitor
update_heartbeat_after_check_in observation m = record m {
  current_state = observation.state;
  last_checked_at = some observation.checked_at;
  last_check_in_at = some observation.checked_at;
  next_check_at =
      observation.checked_at + (m.interval_seconds + m.heartbeat_grace_seconds) * second;
  check_lease_until = none;
}

unfoldable pub monitor_incident_reason : Observation → Text
monitor_incident_reason observation =
    if not (is_empty observation.error)
    then observation.error
    else if ltb 0 observation.status_code
    then codes "HTTP " ++ decimal (pos observation.status_code)
    else codes "monitor check failed"

-- `resolved_at is null`
abbrev pub is_open : Incident → Bool
is_open incident = elim incident.resolved_at [ none ↦ true | some t ↦ false ]

unfoldable pub has_open : List Incident → Bool
has_open [] = false
has_open (i ∷ incidents) = is_open i || has_open incidents

-- whether an incident was opened, and the rows
unfoldable pub ensure_open_monitor_incident : Text → Text → Observation → Monitor → Bool × Monitor
ensure_open_monitor_incident incident_id check_id observation m =
    if has_open m.incidents then (false, m) else (
      true,
      record m {
        incidents =
            m.incidents
            ++ record {
              id_ = incident_id;
              opened_at = observation.checked_at;
              resolved_at = none;
              last_check_id = check_id;
              reason = monitor_incident_reason observation;
            }
              ∷ [];
      },
    )

abbrev pub close_incident : Text → ℕ → Incident → Incident
close_incident check_id now i =
    if is_open i then record i { resolved_at = some now; last_check_id = check_id } else i

unfoldable pub close_all : Text → ℕ → List Incident → List Incident
close_all check_id now [] = []
close_all check_id now (i ∷ incidents) =
    close_incident check_id now i ∷ close_all check_id now incidents

unfoldable pub close_open_monitor_incident : Text → Observation → Monitor → Bool × Monitor
close_open_monitor_incident check_id observation m = (
  has_open m.incidents,
  record m { incidents = close_all check_id observation.checked_at m.incidents },
)

-- `incidentTransition`, with the rows
pub record Transition : Type 0 where
  pub opened : Bool
  pub closed : Bool
  pub monitor : Monitor

abbrev pub opened_as : Bool × Monitor → Transition
opened_as (opened, m) = record { opened = opened; closed = false; monitor = m }

abbrev pub closed_as : Bool × Monitor → Transition
closed_as (closed, m) = record { opened = false; closed = closed; monitor = m }

abbrev pub transition_to : MonitorState → Text → Text → Observation → Monitor → Transition
transition_to down incident_id check_id observation m =
    opened_as (ensure_open_monitor_incident incident_id check_id observation m)
transition_to up incident_id check_id observation m =
    closed_as (close_open_monitor_incident check_id observation m)
transition_to unknown incident_id check_id observation m = record {
  opened = false;
  closed = false;
  monitor = m;
}

unfoldable pub apply_monitor_incident_transition : Text → Text → Observation → Monitor → Transition
apply_monitor_incident_transition incident_id check_id observation m =
    transition_to observation.state incident_id check_id observation m

-- `HTTPCheckResult`; the results of heartbeats have a part of these fields
pub record CheckResult : Type 0 where
  pub previous_state : MonitorState
  pub current_state : MonitorState
  pub incident_opened : Bool
  pub incident_closed : Bool

abbrev pub with_audit : MonitorState → Observation → Transition → CheckResult × Monitor
with_audit previous observation t = (
  record {
    previous_state = previous;
    current_state = observation.state;
    incident_opened = t.opened;
    incident_closed = t.closed;
  },
  record t.monitor { audit = t.monitor.audit ++ (previous, observation.state) ∷ [] },
)

abbrev pub unchanged : MonitorState → Observation → Monitor → CheckResult × Monitor
unchanged previous observation m = (
  record {
    previous_state = previous;
    current_state = observation.state;
    incident_opened = false;
    incident_closed = false;
  },
  m,
)

unfoldable pub record_http_monitor_check_in_tx :
    Text → Text → Observation → Monitor → CheckResult × Monitor
record_http_monitor_check_in_tx incident_id check_id observation m =
    let updated =
      update_monitor_after_check observation m.interval_seconds
        (insert_monitor_check check_id observation m) in
    if monitor_state_changed m.current_state observation.state
    then with_audit m.current_state observation
        (apply_monitor_incident_transition incident_id check_id observation updated)
    else unchanged m.current_state observation updated

-- the observation that a check-in stands for
abbrev pub check_in_observation : ℕ → Observation
check_in_observation checked_at = record {
  checked_at = checked_at;
  state = up;
  status_code = 0;
  error = [];
}

unfoldable pub record_heartbeat_check_in_in_tx : Text → ℕ → Monitor → CheckResult × Monitor
record_heartbeat_check_in_in_tx check_id checked_at m =
    let observation = check_in_observation checked_at in
    let updated =
      update_heartbeat_after_check_in observation (insert_monitor_check check_id observation m) in
    if monitor_state_changed m.current_state up
    then with_audit m.current_state observation
        (closed_as (close_open_monitor_incident check_id observation updated))
    else unchanged m.current_state observation updated

-- `monitorObservationFromHeartbeatTimeout`
abbrev pub timeout_observation : ℕ → Text → Observation
timeout_observation checked_at error = record {
  checked_at = checked_at;
  state = down;
  status_code = 0;
  error = error;
}

unfoldable pub record_heartbeat_timeout_in_tx :
    Text → Text → ℕ → Text → Monitor → CheckResult × Monitor
record_heartbeat_timeout_in_tx incident_id check_id checked_at error m =
    let observation = timeout_observation checked_at error in
    let updated =
      update_monitor_after_check observation m.interval_seconds
        (insert_monitor_check check_id observation m) in
    if monitor_state_changed m.current_state down
    then with_audit m.current_state observation
        (opened_as (ensure_open_monitor_incident incident_id check_id observation updated))
    else unchanged m.current_state observation updated
