-- ===== src/Limits/Tests.antt =====
-- A rate limit of two requests a minute, a quota, and a purge run, with the theorems at them.
use gopnique.Base.{
  ℕ, suc, ◌+◌, ◌-◌, ◌*◌, ◌≤◌, ◌≡◌, ◌≢◌, refl, arith, min, true, false, List, [], ◌∷◌, some, map,
}
use gopnique.Base.Int.{◌≤ℤ◌, sub_ℕ}
use gopnique.Base.Result.{Result, ok}
use gopnique.Base.Text.{codes, text_eq}
use gopnique.Limits.Quota.{QuotaSnapshot, quota_exceeded, quota_decision}
use gopnique.Limits.RateLimit.{
  second, RateLimitPolicySnapshot, rate_limit_bucket, rate_limit_retry_after, retry_after_seconds,
  is_row, increment_rate_limit_bucket, check_policy, new_rejected, requests_per_minute,
}
use gopnique.Limits.RateLimit.Window.{announced, retry_after_seconds_lem, retry_after_seconds-early}
use gopnique.Limits.RateLimit.Count.{count_of, requests_in, admitted_in, admitted_in_lem}
use gopnique.Limits.Retention.{
  Policy, Command, ProjectPurgePlan, PurgeResult, cutoff, normalize_command, normalize_policy,
  plan_project_purge, add_purge_result, no_summary, purge_policy, purge_policies, run_policies,
}
use gopnique.Limits.Retention.Purge.{
  plan_project_purge-ok, plans_of, Log, totals, IsSum, logged_purge, run_policies-totals,
}

running : Unit {0}
unfolding quota_exceeded quota_decision rate_limit_bucket rate_limit_retry_after retry_after_seconds
    is_row increment_rate_limit_bucket check_policy new_rejected requests_per_minute cutoff
    normalize_command normalize_policy plan_project_purge add_purge_result purge_policy
    purge_policies run_policies text_eq
running = tt

abbrev two_a_minute : RateLimitPolicySnapshot
two_a_minute = record { project_key_id = codes "key"; enabled = true; window = 60; limit = 2 }

-- 61 s, 62 s, 63 s and 121 s behind 1970
abbrev arrivals : List ℕ
arrivals = 61 * second ∷ 62 * second ∷ 63 * second ∷ 121 * second ∷ []

first_minute : admitted_in two_a_minute (60 * second) arrivals [] ≡ 2
unfolding running
first_minute = refl

third_waits :
    rate_limit_retry_after (63 * second) (rate_limit_bucket (63 * second) 60) 60 ≡ 57 * second
unfolding running
third_waits = refl

per_minute : requests_per_minute 50 30 ≡ 100
unfolding running
per_minute = refl

admitted_in_lem_example :
    admitted_in two_a_minute (60 * second) arrivals []
    ≡ min
        (requests_in two_a_minute (60 * second) arrivals)
        (2 - count_of two_a_minute (60 * second) [])
admitted_in_lem_example = admitted_in_lem two_a_minute (60 * second) arrivals [] refl

retry_after_seconds_lem_example :
    (1 ≤ announced (63 * second) 60)
    × (announced (63 * second) 60 ≤ 60)
    × (rate_limit_bucket (63 * second + (announced (63 * second) 60 + 1) * second) 60
        ≢ rate_limit_bucket (63 * second) 60)
retry_after_seconds_lem_example = retry_after_seconds_lem (63 * second) 60 (omega arith)

-- 63.5 seconds
abbrev late : ℕ
late = 63500000000

is_told : announced late 60 ≡ 56
unfolding running
is_told = refl

begins : rate_limit_bucket late 60 ≡ 60 * second
unfolding running
begins = refl

retry_after_seconds-early_example :
    rate_limit_bucket (late + announced late 60 * second) 60 ≡ rate_limit_bucket late 60
retry_after_seconds-early_example =
    retry_after_seconds-early late 60 (omega arith) (omega arith) (omega (arith, begins))

abbrev almost_full : QuotaSnapshot
almost_full = record {
  project_enabled = false;
  project_daily_limit = 0;
  project_daily_used = 7;
  organization_enabled = true;
  organization_limit = 10;
  organization_used = 9;
}

abbrev month : Policy
month = record {
  scope = record { organization_id = codes "org"; project_id = codes "web" };
  event_retention_days = 30;
  payload_retention_days = 7;
  delivery_retention_days = 14;
  user_report_retention_days = 90;
  enabled = true;
}

abbrev switched_off : Policy
switched_off = record {
  scope = record { organization_id = codes "org"; project_id = codes "old" };
  event_retention_days = 0;
  payload_retention_days = 0;
  delivery_retention_days = 0;
  user_report_retention_days = 0;
  enabled = false;
}

-- 100 days behind 1970
abbrev nightly : Command
nightly = record { now = some 8640000; batch_size = 500 }

abbrev month_plan : ProjectPurgePlan
month_plan = record {
  scope = month.scope;
  event_cutoff = cutoff 8640000 30;
  payload_cutoff = cutoff 8640000 7;
  delivery_cutoff = cutoff 8640000 14;
  user_report_cutoff = cutoff 8640000 90;
  batch_size = 500;
  payload_retention = 7;
  event_retention = 30;
  delivery_retention = 14;
  report_retention = 90;
}

month_planned : plan_project_purge month nightly ≡ ok month_plan
unfolding running
month_planned = refl

plan_project_purge-ok_example :
    (month.scope ≡ month.scope)
    × (1 ≤ 500)
    × (month_plan.event_cutoff ≡ sub_ℕ 8640000 (86400 * 30))
    × (month_plan.payload_cutoff ≡ sub_ℕ 8640000 (86400 * 7))
    × (month_plan.delivery_cutoff ≡ sub_ℕ 8640000 (86400 * month.delivery_retention_days))
    × (month_plan.user_report_cutoff ≡ sub_ℕ 8640000 (86400 * month.user_report_retention_days))
    × (month_plan.event_cutoff ≤ℤ month_plan.payload_cutoff)
    × (month_plan.event_cutoff ≤ℤ month_plan.delivery_cutoff)
    × (month_plan.payload_cutoff ≤ℤ sub_ℕ 8640000 86400)
    × (month_plan.delivery_cutoff ≤ℤ sub_ℕ 8640000 86400)
    × (month_plan.user_report_cutoff ≤ℤ sub_ℕ 8640000 86400)
plan_project_purge-ok_example =
    plan_project_purge-ok month nightly 8640000 month_plan refl month_planned

abbrev purged : PurgeResult
purged = record {
  events_deleted = 3;
  log_records_deleted = 0;
  payloads_cleared = 2;
  delivery_rows_deleted = 1;
  user_reports_deleted = 0;
  issues_deleted = 1;
  stats_rows_deleted = 4;
}

-- a store that counts its purges
abbrev purge : ProjectPurgePlan → ℕ → Result PurgeResult × ℕ
purge plan n = (ok purged, suc n)

abbrev night_log : Log
night_log = (month_plan, purged) ∷ []

night :
    run_policies (logged_purge purge) nightly (switched_off ∷ month ∷ []) ([], 0)
    ≡ (ok (totals no_summary night_log), (night_log, 1))
unfolding running
night = refl

run_policies-totals_example :
    (map (λ e. ok e.0) night_log ≡ plans_of nightly (switched_off ∷ month ∷ []))
    × IsSum no_summary (totals no_summary night_log) night_log
run_policies-totals_example =
    run_policies-totals purge nightly (switched_off ∷ month ∷ []) (totals no_summary night_log) 0 1
      night_log night
