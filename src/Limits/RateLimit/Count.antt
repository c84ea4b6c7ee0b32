-- ===== src/Limits/RateLimit/Count.antt =====
-- How many requests of a window are let through.
use gopnique.Base.{
  ℕ, suc, ◌-◌, ◌≡◌, ◌≢◌, refl, arith, min, true, ◌&&◌, List, [], ◌∷◌, leb, ◌==◌, if◌then◌else◌,
  Bool-cases, inl, inr, ==_iff, ==_refl,
}
use gopnique.Base.Text.Laws.{text_eq_self}
use gopnique.Limits.RateLimit.{
  RateLimitPolicySnapshot, BucketRow, is_row, increment_rate_limit_bucket, check_policy,
  rate_limit_bucket, new_rejected,
}

-- the count that the table holds for a policy and a window; no row is 0
abbrev pub count_of : RateLimitPolicySnapshot → ℕ → List BucketRow → ℕ
count_of policy bucket [] = 0
count_of policy bucket (row ∷ rows) =
    if is_row policy bucket row then row.event_count else count_of policy bucket rows

increment-fst :
    (policy : RateLimitPolicySnapshot) (bucket : ℕ) (rows : List BucketRow)
    → (increment_rate_limit_bucket policy bucket rows).0 ≡ suc (count_of policy bucket rows)
unfolding increment_rate_limit_bucket
increment-fst policy bucket [] = refl
increment-fst policy bucket (row ∷ rows) = elim (Bool-cases (is_row policy bucket row)) [
  | inl e ↦ rw e refl
  | inr e ↦ rw e (increment-fst policy bucket rows)
]

increment-same :
    (policy : RateLimitPolicySnapshot) (bucket : ℕ) (rows : List BucketRow)
    → count_of policy bucket (increment_rate_limit_bucket policy bucket rows).1
      ≡ suc (count_of policy bucket rows)
unfolding increment_rate_limit_bucket is_row
increment-same policy bucket [] =
    rw (==_refl bucket) (rw (==_refl policy.window) (rw (text_eq_self policy.project_key_id)))
increment-same policy bucket (row ∷ rows) = elim (Bool-cases (is_row policy bucket row)) [
  | inl e ↦ rw e (rw e refl)
  | inr e ↦ rw e (rw e (increment-same policy bucket rows))
]

increment-other :
    (policy : RateLimitPolicySnapshot) (bucket other : ℕ) (rows : List BucketRow)
    → bucket ≢ other
    → count_of policy other (increment_rate_limit_bucket policy bucket rows).1
      ≡ count_of policy other rows
unfolding increment_rate_limit_bucket is_row
increment-other policy bucket other [] n = ground arith
increment-other policy bucket other (row ∷ rows) n = elim (Bool-cases (is_row policy bucket row)) [
  | inl e ↦ rw e (ground (arith, n, e))
  | inr e ↦ rw e (rw (increment-other policy bucket other rows n) refl)
]

-- The requests of a list that fall in a window, and those of them that are let through when the
-- list is worked off in order.
abbrev pub requests_in : RateLimitPolicySnapshot → ℕ → List ℕ → ℕ
requests_in policy bucket [] = 0
requests_in policy bucket (now ∷ nows) =
    let rest = requests_in policy bucket nows in
    if rate_limit_bucket now policy.window == bucket then suc rest else rest

abbrev pub admitted_in : RateLimitPolicySnapshot → ℕ → List ℕ → List BucketRow → ℕ
admitted_in policy bucket [] rows = 0
admitted_in policy bucket (now ∷ nows) rows =
    let rest = admitted_in policy bucket nows (check_policy policy now rows).1 in
    if rate_limit_bucket now policy.window == bucket && (check_policy policy now rows).0.allowed
    then suc rest
    else rest

-- One request, with the policy switched on.
check_policy-allowed :
    (policy : RateLimitPolicySnapshot) (now : ℕ) (rows : List BucketRow)
    → policy.enabled ≡ true
    → (check_policy policy now rows).0.allowed
      ≡ leb (suc (count_of policy (rate_limit_bucket now policy.window) rows)) policy.limit
unfolding check_policy new_rejected
check_policy-allowed policy now rows h =
    let next = increment-fst policy (rate_limit_bucket now policy.window) rows in
    ground (arith, next)

check_policy-rows :
    (policy : RateLimitPolicySnapshot) (now : ℕ) (rows : List BucketRow)
    → policy.enabled ≡ true
    → (check_policy policy now rows).1
      ≡ (increment_rate_limit_bucket policy (rate_limit_bucket now policy.window) rows).1
unfolding check_policy
check_policy-rows policy now rows h = ground arith

admit-one :
    (admitted requests limit count : ℕ)
    → admitted ≡ min requests (limit - suc count)
    → (if leb (suc count) limit then suc admitted else admitted)
      ≡ min (suc requests) (limit - count)
admit-one admitted requests limit count h = ground arith

-- Of the requests that fall in one window, exactly as many are let through as the limit leaves beyond
-- those counted before, and all of them if there are fewer. Requests of other windows in between
-- change nothing.
pub admitted_in_lem :
    (policy : RateLimitPolicySnapshot) (bucket : ℕ) (nows : List ℕ) (rows : List BucketRow)
    → policy.enabled ≡ true
    → admitted_in policy bucket nows rows
      ≡ min (requests_in policy bucket nows) (policy.limit - count_of policy bucket rows)
admitted_in_lem policy bucket [] rows h = omega arith
admitted_in_lem policy bucket (now ∷ nows) rows h =
    let b = rate_limit_bucket now policy.window in
    let ih =
      rw (check_policy-rows policy now rows h) at
        (admitted_in_lem policy bucket nows (check_policy policy now rows).1 h) in
    elim (Bool-cases (b == bucket)) [
      | inl e ↦
          let same : b ≡ bucket = (==_iff b bucket).0 e in
          rw e (
            rw (check_policy-allowed policy now rows h) (
              rw (check_policy-rows policy now rows h) (
                rw same (
                  admit-one _ _ policy.limit (count_of policy bucket rows)
                    (rw (← increment-same policy bucket rows) (rw same at ih))))))
      | inr e ↦
          let differ : b ≢ bucket = λ q. cc (e, (==_iff b bucket).1 q) in
          rw e (
            rw (check_policy-rows policy now rows h)
              (rw (← increment-other policy b bucket rows differ) ih))
    ]
