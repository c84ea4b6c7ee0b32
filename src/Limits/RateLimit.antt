-- ===== src/Limits/RateLimit.antt =====
-- internal/adapters/postgres/rate_limit.go and the decisions of internal/app/ratelimit/ratelimit.go. A
-- time is its nanoseconds since 1970, and is not before it. The tables keep a window and a limit
-- above 0, so that the division is by a positive number. Columns of a bucket row that nothing reads
-- are left out.
pub mod Window
pub mod Count
use gopnique.Base.{
  ℕ, suc, ◌+◌, ◌-◌, ◌*◌, ◌/◌, Bool, true, false, ◌&&◌, List, [], ◌∷◌, leb, ltb, ◌==◌, is_empty,
  if◌then◌else◌,
}
use gopnique.Base.Action.{Action, ◌>>=◌, lift, return_}
use gopnique.Base.Result.{Result}
use gopnique.Base.Text.{Text, codes, text_eq}
use gopnique.Ingest.Transaction.{Pool, run}

abbrev pub second : ℕ
second = 1000000000

pub record Decision : Type 0 where
  pub allowed : Bool
  pub reason : Text
  pub retry_after : ℕ

abbrev pub new_allowed : Decision
new_allowed = record { allowed = true; reason = []; retry_after = 0 }

unfoldable pub new_rejected : Text → ℕ → Decision
new_rejected reason retry_after = record {
  allowed = false;
  reason = if is_empty reason then codes "rate_limited" else reason;
  retry_after = if ltb retry_after second then second else retry_after;
}

pub record RateLimitPolicySnapshot : Type 0 where
  pub project_key_id : Text
  pub enabled : Bool
  pub window : ℕ  -- seconds
  pub limit : ℕ

unfoldable pub rate_limit_bucket : ℕ → ℕ → ℕ
rate_limit_bucket now window_seconds =
    let unix = now / second in unix / window_seconds * window_seconds * second

unfoldable pub rate_limit_retry_after : ℕ → ℕ → ℕ → ℕ
rate_limit_retry_after now bucket window_seconds =
    let reset_at = bucket + window_seconds * second in
    let retry_after = reset_at - now in if ltb retry_after second then second else retry_after

-- `retryAfterSeconds` of internal/adapters/http/sentry.go: `int(duration.Seconds())`, which drops the
-- fraction of a second (float64 holds the durations of windows exactly enough for that)
unfoldable pub retry_after_seconds : ℕ → ℕ
retry_after_seconds duration =
    let seconds = duration / second in if ltb seconds 1 then 1 else seconds

unfoldable pub requests_per_minute : ℕ → ℕ → ℕ
requests_per_minute limit window_seconds =
    if leb limit 0 then 0 else if leb window_seconds 0 then 0 else limit * 60 / window_seconds

-- a row of project_key_rate_limit_buckets
pub record BucketRow : Type 0 where
  pub project_key_id : Text
  pub bucket_at : ℕ
  pub window_seconds : ℕ
  pub event_count : ℕ

-- the primary key
unfoldable pub is_row : RateLimitPolicySnapshot → ℕ → BucketRow → Bool
is_row policy bucket row =
    row.bucket_at == bucket
    && row.window_seconds == policy.window
    && text_eq row.project_key_id policy.project_key_id

abbrev count_up : BucketRow → BucketRow
count_up row = record {
  project_key_id = row.project_key_id;
  bucket_at = row.bucket_at;
  window_seconds = row.window_seconds;
  event_count = suc row.event_count;
}

abbrev pub beside : BucketRow → ℕ × List BucketRow → ℕ × List BucketRow
beside row (n, rows) = (n, row ∷ rows)

-- `insert … on conflict … do update set event_count = event_count + 1 returning event_count`
unfoldable pub increment_rate_limit_bucket :
    RateLimitPolicySnapshot → ℕ → List BucketRow → ℕ × List BucketRow
increment_rate_limit_bucket policy bucket [] = (
  1,
  record {
    project_key_id = policy.project_key_id;
    bucket_at = bucket;
    window_seconds = policy.window;
    event_count = 1;
  }
      ∷ [],
)
increment_rate_limit_bucket policy bucket (row ∷ rows) =
    let rest = increment_rate_limit_bucket policy bucket rows in
    if is_row policy bucket row then (suc row.event_count, count_up row ∷ rows) else beside row rest

abbrev pub decide : RateLimitPolicySnapshot → ℕ → ℕ → ℕ → Decision
decide policy now bucket count =
    if leb count policy.limit
    then new_allowed
    else new_rejected (codes "project_key_rate_limited")
        (rate_limit_retry_after now bucket policy.window)

-- behind the policy, which the select of `rateLimitPolicyForCommand` finds
unfoldable pub check_policy :
    RateLimitPolicySnapshot → ℕ → List BucketRow → Decision × List BucketRow
check_policy policy now rows =
    if policy.enabled
    then (let bucket = rate_limit_bucket now policy.window in
        let counted = increment_rate_limit_bucket policy bucket rows in
        (decide policy now bucket counted.0, counted.1))
    else (new_allowed, rows)
