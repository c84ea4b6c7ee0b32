-- ===== src/Uptime/Tests.antt =====
-- A monitor that fails, fails again and comes back, and a run of the checks over two monitors.
use gopnique.Base.{
  ℕ, ◌+◌, ◌*◌, ◌≤◌, ◌≡◌, refl, true, false, List, [], ◌∷◌, none, some, inl, inr, length,
}
use gopnique.Base.Int.{pos, pos_part}
use gopnique.Base.Result.{Result, ok, err}
use gopnique.Base.Text.{Text, codes}
use gopnique.Outbound.{
  Net, Resolver, DestinationUrl, validate_resolved_destination, check_addresses,
  allowed_public_addr,
}
use gopnique.Notify.Plan.{decimal}
use gopnique.Uptime.Monitor.{
  MonitorState, unknown, up, down, same_state, monitor_state_changed,
  monitor_state_from_http_status, Observation, Monitor, second, insert_monitor_check,
  update_monitor_after_check, update_heartbeat_after_check_in, monitor_incident_reason, has_open,
  ensure_open_monitor_incident, close_all, close_open_monitor_incident,
  apply_monitor_incident_transition, record_http_monitor_check_in_tx,
  record_heartbeat_check_in_in_tx, record_heartbeat_timeout_in_tx,
}
use gopnique.Uptime.Incidents.{
  Record, http_check, check_in, timeout, record_one, record_all, open_count, IsConsistent,
  record_all-IsConsistent,
}
use gopnique.Uptime.Race.{UpUntil, DownUntil, check_in-timeout}
use gopnique.Uptime.Checks.{
  CheckTarget, CheckDueCommand, CheckSummary, HttpProbeResult, CheckStore, normalize_limit,
  check_http_monitor, count_observation, validate_check_command, validate_check_inputs,
  check_targets, check_due_http_monitors,
}
use gopnique.Uptime.Summary.{check_due_http_monitors-Counts}

running : Unit {0}
unfolding validate_resolved_destination check_addresses allowed_public_addr decimal same_state
    monitor_state_changed monitor_state_from_http_status insert_monitor_check
    update_monitor_after_check update_heartbeat_after_check_in monitor_incident_reason has_open
    ensure_open_monitor_incident close_all close_open_monitor_incident
    apply_monitor_incident_transition record_http_monitor_check_in_tx
    record_heartbeat_check_in_in_tx record_heartbeat_timeout_in_tx record_one record_all open_count
    normalize_limit check_http_monitor count_observation validate_check_command
    validate_check_inputs check_targets check_due_http_monitors
running = tt

abbrev fresh : Monitor
fresh = record {
  current_state = unknown;
  interval_seconds = 60;
  heartbeat_grace_seconds = 120;
  last_checked_at = none;
  last_check_in_at = none;
  next_check_at = 0;
  check_lease_until = none;
  checks = [];
  incidents = [];
  audit = [];
}

abbrev saw : ℕ → MonitorState → ℕ → Observation
saw now state status = record { checked_at = now; state = state; status_code = status; error = [] }

abbrev records : List Record
records =
    http_check (codes "i1") (codes "c1") (saw 10 down 503)
    ∷ http_check (codes "i2") (codes "c2") (saw 20 down 500)
    ∷ http_check (codes "i3") (codes "c3") (saw 30 up 200)
    ∷ []

one_incident :
    (record_all records fresh).incidents
    ≡ record {
      id_ = codes "i1";
      opened_at = 10;
      resolved_at = some 30;
      last_check_id = codes "c3";
      reason = codes "HTTP 503";
    }
      ∷ []
unfolding running
one_incident = refl

fresh-IsConsistent : IsConsistent fresh
unfolding running
fresh-IsConsistent = refl

record_all-IsConsistent_example : IsConsistent (record_all records fresh)
record_all-IsConsistent_example =
    record_all-IsConsistent records fresh (inr refl, (inr refl, (inl refl, tt))) fresh-IsConsistent

check_in-timeout_example :
    UpUntil (500 + (60 + 120) * second) (record_one (check_in (codes "c1") 500) fresh).1
    × DownUntil
        (400 + 60 * second)
        (record_one
          (timeout (codes "i1") (codes "c2") 400 (codes "heartbeat overdue"))
          (record_one (check_in (codes "c1") 500) fresh).1).1
check_in-timeout_example =
    check_in-timeout fresh (codes "i1") (codes "c1") (codes "c2") (codes "heartbeat overdue") 400
      500

abbrev target : Text → CheckTarget
target name = record {
  monitor_id = name;
  url = record { value = codes "http://a.io"; host = codes "a.io" };
  timeout = 5;
}

-- the store gives two monitors and counts what it records
abbrev store : CheckStore ℕ
store = record {
  claim_due_http_monitors = λ now limit s. (ok (target (codes "m1") ∷ target (codes "m2") ∷ []), s);
  record_http_monitor_check = λ name observation s. (
    ok (record {
      previous_state = unknown;
      current_state = observation.state;
      incident_opened = false;
      incident_closed = false;
    }),
    s + 1,
  );
  claim_overdue_heartbeat_monitors = λ now limit s. (ok [], s);
  record_heartbeat_timeout = λ name now error s. (err "no heartbeat", s);
}

abbrev net : Net
net = record {
  parse_url = λ s. none;
  hostname = λ u. u.host;
  url_string = λ u. u.scheme;
  parse_addr = λ s. none;
  lower = λ c. c;
}

abbrev resolver : Resolver
resolver = some λ host. ok (
    record {
      is_valid = true;
      is_global_unicast = true;
      is_private = false;
      is_loopback = false;
      is_link_local_unicast = false;
      is_unspecified = false;
    }
    ∷ [])

abbrev get : DestinationUrl → ℕ → Result HttpProbeResult
get url limit = ok (record { status_code = 404; duration = 3 })

abbrev command : CheckDueCommand
command = record { now = 7; limit = pos 500 }

abbrev two_down : CheckSummary
two_down = record { claimed = 2; checked = 2; up = 0; down = 2; failures = 0 }

checked_two : check_due_http_monitors store net resolver get command 0 ≡ (ok two_down, 2)
unfolding running
checked_two = refl

check_due_http_monitors-Counts_example :
    (targets : List CheckTarget) × (u : ℕ) × (store.claim_due_http_monitors 7
        (normalize_limit (pos 500))
        0
      ≡ (ok targets, u))
    × (◌≡◌ {A = ℕ} 2 (length targets))
    × (◌≡◌ {A = ℕ} 2 (length targets))
    × (◌≡◌ {A = ℕ} (0 + 2) (length targets))
    × (1 ≤ pos_part (normalize_limit (pos 500)))
    × (pos_part (normalize_limit (pos 500)) ≤ 100)
check_due_http_monitors-Counts_example =
    check_due_http_monitors-Counts store net resolver get command 0 2 two_down checked_two
