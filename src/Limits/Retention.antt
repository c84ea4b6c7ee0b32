-- ===== src/Limits/Retention.antt =====
-- internal/app/retention/retention.go: the purge of old data, project by project. A time is a number of
-- seconds since 1970 (`none` is the zero time), in UTC, where a calendar day is 86,400 seconds; the
-- store is a parameter that a purge changes.
pub mod Purge
use gopnique.Base.{
  ℕ, suc, ◌+◌, ◌*◌, Bool, true, false, ◌||◌, List, [], ◌∷◌, ltb, is_empty, if◌then◌else◌, Option,
  none, some,
}
use gopnique.Base.Int.{ℤ, sub_ℕ}
use gopnique.Base.Action.{Action, ◌>>=◌, lift, return_}
use gopnique.Base.Result.{Result, ok, err, reject_if}
use gopnique.Base.Text.{Text}

pub record Scope : Type 0 where
  pub organization_id : Text
  pub project_id : Text

pub record Policy : Type 0 where
  pub scope : Scope
  pub event_retention_days : ℕ
  pub payload_retention_days : ℕ
  pub delivery_retention_days : ℕ
  pub user_report_retention_days : ℕ
  pub enabled : Bool

pub record Command : Type 0 where
  pub now : Option ℕ
  pub batch_size : ℕ

pub record ProjectPurgePlan : Type 0 where
  pub scope : Scope
  pub event_cutoff : ℤ
  pub payload_cutoff : ℤ
  pub delivery_cutoff : ℤ
  pub user_report_cutoff : ℤ
  pub batch_size : ℕ
  pub payload_retention : ℕ
  pub event_retention : ℕ
  pub delivery_retention : ℕ
  pub report_retention : ℕ

pub record PurgeResult : Type 0 where
  pub events_deleted : ℕ
  pub log_records_deleted : ℕ
  pub payloads_cleared : ℕ
  pub delivery_rows_deleted : ℕ
  pub user_reports_deleted : ℕ
  pub issues_deleted : ℕ
  pub stats_rows_deleted : ℕ

pub record Summary : Type 0 where
  pub projects_processed : ℕ
  pub events_deleted : ℕ
  pub log_records_deleted : ℕ
  pub payloads_cleared : ℕ
  pub delivery_rows_deleted : ℕ
  pub user_reports_deleted : ℕ
  pub issues_deleted : ℕ
  pub stats_rows_deleted : ℕ

-- the day `days` before
unfoldable pub cutoff : ℕ → ℕ → ℤ
cutoff now days = sub_ℕ now (days * 86400)

-- `command.Now` and the batch size, checked
unfoldable pub normalize_command : Command → Result (ℕ × ℕ)
normalize_command command = elim command.now [
  | none ↦ err "retention reference time is required"
  | some now ↦
      if ltb command.batch_size 1
      then err "retention batch size must be positive"
      else ok (now, command.batch_size)
]

unfoldable pub normalize_policy : Policy → Result Policy
normalize_policy policy =
    if is_empty policy.scope.organization_id || is_empty policy.scope.project_id
    then err "retention scope is required"
    else if ltb policy.event_retention_days 1
    then err "event retention days must be positive"
    else if ltb policy.payload_retention_days 1
    then err "payload retention days must be positive"
    else if ltb policy.delivery_retention_days 1
    then err "delivery retention days must be positive"
    else if ltb policy.user_report_retention_days 1
    then err "user report retention days must be positive"
    else if ltb policy.event_retention_days policy.payload_retention_days
    then err "payload retention cannot exceed event retention"
    else if ltb policy.event_retention_days policy.delivery_retention_days
    then err "delivery retention cannot exceed event retention"
    else ok policy

abbrev plan_with : ℕ × ℕ → Policy → ProjectPurgePlan
plan_with (now, batch_size) policy = record {
  scope = policy.scope;
  event_cutoff = cutoff now policy.event_retention_days;
  payload_cutoff = cutoff now policy.payload_retention_days;
  delivery_cutoff = cutoff now policy.delivery_retention_days;
  user_report_cutoff = cutoff now policy.user_report_retention_days;
  batch_size = batch_size;
  payload_retention = policy.payload_retention_days;
  event_retention = policy.event_retention_days;
  delivery_retention = policy.delivery_retention_days;
  report_retention = policy.user_report_retention_days;
}

abbrev plan_policy : Command → Result Policy → Result ProjectPurgePlan
plan_policy command (err e) = err e
plan_policy command (ok policy) = elim (normalize_command command) [
  | err e ↦ err e
  | ok checked ↦ ok (plan_with checked policy)
]

unfoldable pub plan_project_purge : Policy → Command → Result ProjectPurgePlan
plan_project_purge policy command = plan_policy command (normalize_policy policy)

unfoldable pub add_purge_result : Summary → PurgeResult → Summary
add_purge_result summary purged = record {
  projects_processed = summary.projects_processed;
  events_deleted = summary.events_deleted + purged.events_deleted;
  log_records_deleted = summary.log_records_deleted + purged.log_records_deleted;
  payloads_cleared = summary.payloads_cleared + purged.payloads_cleared;
  delivery_rows_deleted = summary.delivery_rows_deleted + purged.delivery_rows_deleted;
  user_reports_deleted = summary.user_reports_deleted + purged.user_reports_deleted;
  issues_deleted = summary.issues_deleted + purged.issues_deleted;
  stats_rows_deleted = summary.stats_rows_deleted + purged.stats_rows_deleted;
}

abbrev pub one_more_project : Summary → Summary
one_more_project summary = record {
  projects_processed = suc summary.projects_processed;
  events_deleted = summary.events_deleted;
  log_records_deleted = summary.log_records_deleted;
  payloads_cleared = summary.payloads_cleared;
  delivery_rows_deleted = summary.delivery_rows_deleted;
  user_reports_deleted = summary.user_reports_deleted;
  issues_deleted = summary.issues_deleted;
  stats_rows_deleted = summary.stats_rows_deleted;
}

abbrev pub no_summary : Summary
no_summary = record {
  projects_processed = 0;
  events_deleted = 0;
  log_records_deleted = 0;
  payloads_cleared = 0;
  delivery_rows_deleted = 0;
  user_reports_deleted = 0;
  issues_deleted = 0;
  stats_rows_deleted = 0;
}

module _ {S : Type 0} (purge_expired_project_data : ProjectPurgePlan → Action S PurgeResult) where
  -- one turn of the loop
  unfoldable pub purge_policy : Command → Policy → Summary → Action S Summary
  purge_policy command policy summary =
      if policy.enabled
      then lift (plan_project_purge policy command) >>= (λ plan.
        purge_expired_project_data plan
        >>= (λ purged. return_ (one_more_project (add_purge_result summary purged))))
      else return_ summary

  unfoldable pub purge_policies : Command → Summary → List Policy → Action S Summary
  purge_policies command summary [] = return_ summary
  purge_policies command summary (policy ∷ policies) =
      purge_policy command policy summary >>= λ next. purge_policies command next policies

  unfoldable pub run_policies : Command → List Policy → Action S Summary
  run_policies command policies = purge_policies command no_summary policies
