-- ===== src/Uptime/Bounds.antt =====
-- What a monitor can be that is created.
use gopnique.Base.{◌≤◌, ◌≡◌, false, is_empty}
use gopnique.Base.Action.{Action}
use gopnique.Base.Int.{pos_part}
use gopnique.Base.Result.{Result}
use gopnique.Base.Text.{Text, byte_len}
use gopnique.Uptime.Definition.{whole_seconds, HttpMonitorDefinition, CreateHttpMonitorCommand}

-- a command as the manager gets it
pub record IsBounded (command : CreateHttpMonitorCommand) : Type 0 where
  pub named : is_empty command.name ≡ false
  pub short_name : byte_len command.name ≤ 128
  pub interval_least : 60 ≤ pos_part command.interval_seconds
  pub interval_most : pos_part command.interval_seconds ≤ 86400
  pub timeout_least : 1 ≤ pos_part command.timeout_seconds
  pub timeout_most : pos_part command.timeout_seconds ≤ 30

-- what `CreateHTTPMonitor` hands on
abbrev normalized_by : CreateHttpMonitorCommand → HttpMonitorDefinition → CreateHttpMonitorCommand
normalized_by command definition = record command {
  name = definition.name;
  url = definition.url;
  interval_seconds = whole_seconds definition.interval;
  timeout_seconds = whole_seconds definition.timeout;
}
