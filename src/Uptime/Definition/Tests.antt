-- ===== src/Uptime/Definition/Tests.antt =====
-- The creation of a monitor of a name that resolves to a public address.
use gopnique.Base.{ℕ, ◌+◌, ◌≡◌, refl, true, false, some, none, [], ◌∷◌}
use gopnique.Base.Action.{Action}
use gopnique.Base.Int.{ℤ, pos}
use gopnique.Base.Result.{ok, err}
use gopnique.Base.Text.{
  codes, text_eq, is_space, trim_left, trim_right, trim_space, to_lower, contains_any, valid_utf8,
  byte_len, is_control,
}
use gopnique.Outbound.{
  Net, Resolver, has_suffix, allowed_public_addr, blocked_host_name, checked_url,
  parse_destination_url, check_addresses, validate_resolved_destination, validate_destination,
}
use gopnique.Uptime.Definition.{
  seconds, new_monitor_name, new_monitor_interval, new_monitor_timeout, new_monitor_grace,
  normalize_http_monitor_url, new_http_monitor_definition, CreateHttpMonitorCommand,
  CreateHeartbeatMonitorCommand, require_scope, monitor_definition, normalized_command,
  heartbeat_command, create_http_monitor, create_heartbeat_monitor,
}

running : Unit {0}
unfolding text_eq is_space trim_left trim_right trim_space to_lower contains_any valid_utf8 byte_len
    is_control has_suffix allowed_public_addr blocked_host_name checked_url parse_destination_url
    check_addresses validate_resolved_destination validate_destination seconds new_monitor_name
    new_monitor_interval new_monitor_timeout new_monitor_grace normalize_http_monitor_url
    new_http_monitor_definition require_scope monitor_definition normalized_command
    heartbeat_command create_http_monitor create_heartbeat_monitor
running = tt

abbrev net : Net
net = record {
  parse_url = λ s.
      some (record { scheme = codes "HTTP"; has_user = false; host = s; fragment = []; rest = [] });
  hostname = λ u. u.host;
  url_string = λ u. u.host;
  parse_addr = λ s. none;
  lower = λ c. c;
}

abbrev resolver : Resolver
resolver = some λ host. ok (
    record {
      is_valid = true;
      is_global_unicast = true;
      is_private = false;
      is_loopback = false;
      is_link_local_unicast = false;
      is_unspecified = false;
    }
    ∷ [])

-- counts the monitors and answers with the seconds between two checks
abbrev manager : CreateHttpMonitorCommand → Action ℕ ℤ
manager command monitors = (ok command.interval_seconds, monitors + 1)

abbrev command : CreateHttpMonitorCommand
command = record {
  scope = record { organization_id = codes "o"; project_id = codes "p" };
  actor_id = codes "a";
  name = codes " Site ";
  url = codes "A.io";
  interval_seconds = pos 60;
  timeout_seconds = pos 30;
}

times_out_too_late :
    create_http_monitor net resolver (some manager) (record command { timeout_seconds = pos 31 }) 4
    ≡ (err "monitor timeout must be at most 30 seconds", 4)
unfolding running
times_out_too_late = refl

-- The seconds are turned into nanoseconds modulo 2 ^ 64 before they are compared.
interval-wraps :
    create_http_monitor net resolver
      (some manager)
      (record command { interval_seconds = pos (36028797018963968 + 60) })
      4
    ≡ (ok (pos 60), 5)
unfolding running
interval-wraps = refl

heartbeat-wraps :
    create_heartbeat_monitor
      (some λ (c : CreateHeartbeatMonitorCommand) (n : ℕ). (ok c.grace_seconds, n + 1))
      (record {
        scope = command.scope;
        actor_id = command.actor_id;
        name = command.name;
        interval_seconds = pos 60;
        grace_seconds = pos (36028797018963968 + 61);
      })
      4
    ≡ (ok (pos 61), 5)
unfolding running
heartbeat-wraps = refl
