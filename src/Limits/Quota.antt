-- ===== src/Limits/Quota.antt =====
-- internal/adapters/postgres/quota.go: whether a day's quota admits more events. The numbers are int64
-- in the code; the tables keep the limits positive and the sums are counts of rows.
use gopnique.Base.{ℕ, ◌+◌, ◌≤◌, ◌≡◌, ◌↔◌, ◌⊎◌, Bool, true, false, ltb, if◌then◌else◌, arith}
use gopnique.Base.Text.{codes}
use gopnique.Ingest.Workflow.{QuotaDecision, new_quota_allowed, new_quota_rejected}

pub record QuotaSnapshot : Type 0 where
  pub project_enabled : Bool
  pub project_daily_limit : ℕ
  pub project_daily_used : ℕ
  pub organization_enabled : Bool
  pub organization_limit : ℕ
  pub organization_used : ℕ

unfoldable pub quota_exceeded : Bool → ℕ → ℕ → ℕ → Bool
quota_exceeded false used limit next = false
quota_exceeded true used limit next = ltb limit (used + next)

unfoldable pub quota_decision : QuotaSnapshot → QuotaDecision
quota_decision snapshot =
    if quota_exceeded snapshot.organization_enabled snapshot.organization_used
      snapshot.organization_limit 1
    then new_quota_rejected (codes "organization_quota_exceeded")
    else if quota_exceeded snapshot.project_enabled snapshot.project_daily_used
        snapshot.project_daily_limit 1
    then new_quota_rejected (codes "project_quota_exceeded")
    else new_quota_allowed

-- for a batch of log records; `count` below 1 counts as 1
unfoldable pub log_quota_decision : QuotaSnapshot → ℕ → QuotaDecision
log_quota_decision snapshot count =
    let count = if ltb count 1 then 1 else count in
    if quota_exceeded snapshot.organization_enabled snapshot.organization_used
      snapshot.organization_limit count
    then new_quota_rejected (codes "organization_quota_exceeded")
    else if quota_exceeded snapshot.project_enabled snapshot.project_daily_used
        snapshot.project_daily_limit count
    then new_quota_rejected (codes "project_quota_exceeded")
    else new_quota_allowed

-- The quota has room for so many more, or is switched off.
abbrev pub HasRoom : Bool → ℕ → ℕ → ℕ → Type 0
HasRoom enabled used limit next = (enabled ≡ false) ⊎ (used + next ≤ limit)

quota_exceeded-false :
    (enabled : Bool) (used limit next : ℕ)
    → (quota_exceeded enabled used limit next ≡ false) ↔ HasRoom enabled used limit next
unfolding quota_exceeded
quota_exceeded-false false used limit next = ground arith
quota_exceeded-false true used limit next = ground arith

-- An event is admitted exactly if both the organization's and the project's quota have room for one
-- more.
pub quota_decision_iff :
    (q : QuotaSnapshot)
    → ((quota_decision q).allowed ≡ true) ↔ (
        HasRoom q.organization_enabled q.organization_used q.organization_limit 1
        × HasRoom q.project_enabled q.project_daily_used q.project_daily_limit 1)
unfolding quota_decision
quota_decision_iff q = ground (
  arith,
  quota_exceeded-false q.organization_enabled q.organization_used q.organization_limit 1,
  quota_exceeded-false q.project_enabled q.project_daily_used q.project_daily_limit 1,
)

-- A batch of log records is admitted exactly if both quotas have room for all of it; an empty batch
-- counts as one record.
pub log_quota_decision_iff :
    (q : QuotaSnapshot) (count next : ℕ)
    → next ≡ (if ltb count 1 then 1 else count)
    → ((log_quota_decision q count).allowed ≡ true) ↔ (
        HasRoom q.organization_enabled q.organization_used q.organization_limit next
        × HasRoom q.project_enabled q.project_daily_used q.project_daily_limit next)
unfolding log_quota_decision
log_quota_decision_iff q count next h = rw h (
    ground (
      arith,
      quota_exceeded-false q.organization_enabled q.organization_used q.organization_limit
          (if ltb count 1 then 1 else count),
      quota_exceeded-false q.project_enabled q.project_daily_used q.project_daily_limit
          (if ltb count 1 then 1 else count),
    ))
