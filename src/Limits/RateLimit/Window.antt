-- ===== src/Limits/RateLimit/Window.antt =====
-- The window that a request falls in, and when the next one opens.
use gopnique.Base.{ℕ, ◌+◌, ◌*◌, ◌/◌, ◌%◌, ◌≤◌, ◌<◌, ◌≡◌, ◌≢◌, ap, ◌∙◌, arith}
use native.Mathlib.Nat.{div-mul-le_self, lt-div-mul-add, div-eq_of_lt-le}
use gopnique.Limits.RateLimit.{
  second, rate_limit_bucket, rate_limit_retry_after, retry_after_seconds,
}

-- A request lies in its own window.
pub rate_limit_bucket_lem :
    (now window : ℕ)
    → 0 < window
    → (rate_limit_bucket now window ≤ now) × (now < rate_limit_bucket now window + window * second)
unfolding rate_limit_bucket
rate_limit_bucket_lem now window h =
    let lo = div-mul-le_self (now / second) window in
    let hi = lt-div-mul-add {a = now / second} {b = window} h in
    (omega (arith, lo), omega (arith, hi))

-- The wait of the decision is a second at least and as long as the window at most, and ends behind
-- the window of the request.
rate_limit_retry_after_lem :
    (now window : ℕ)
    → 0 < window
    → (second ≤ rate_limit_retry_after now (rate_limit_bucket now window) window)
      × (rate_limit_retry_after now (rate_limit_bucket now window) window ≤ window * second)
      × (rate_limit_bucket now window + window * second
          ≤ now + rate_limit_retry_after now (rate_limit_bucket now window) window)
unfolding rate_limit_retry_after
rate_limit_retry_after_lem now window h =
    let b = rate_limit_bucket now window in
    let wait = rate_limit_retry_after now b window in
    let (lo, hi) = rate_limit_bucket_lem now window h in
    let long : second ≤ wait = ground arith in
    let short : wait ≤ window * second = ground arith in
    let beyond : b + window * second ≤ now + wait = ground arith in (long, short, beyond)

-- the seconds of the `Retry-After` header of a request that is rejected
abbrev pub announced : ℕ → ℕ → ℕ
announced now window =
    retry_after_seconds (rate_limit_retry_after now (rate_limit_bucket now window) window)

-- A rejected client is told to wait for a second at least and for the length of the window at most;
-- a request one second later than told is counted in another window.
pub retry_after_seconds_lem :
    (now window : ℕ)
    → 0 < window
    → (1 ≤ announced now window)
      × (announced now window ≤ window)
      × (rate_limit_bucket (now + (announced now window + 1) * second) window
          ≢ rate_limit_bucket now window)
unfolding retry_after_seconds
retry_after_seconds_lem now window h =
    let wait = rate_limit_retry_after now (rate_limit_bucket now window) window in
    let (long, short, beyond) = rate_limit_retry_after_lem now window h in
    let (lo, hi) = rate_limit_bucket_lem (now + (announced now window + 1) * second) window h in
    let least : 1 ≤ announced now window = ground arith in
    let most : announced now window ≤ window = ground arith in
    let over : wait ≤ (announced now window + 1) * second = ground arith in
    (least, most, λ e. omega (arith, e))

-- When a request comes at a fraction of a second, and more than a second before its window ends, the
-- client is told a time at which that window is still the current one.
pub retry_after_seconds-early :
    (now window : ℕ)
    → 0 < window
    → 0 < now % second
    → now + second ≤ rate_limit_bucket now window + window * second
    → rate_limit_bucket (now + announced now window * second) window ≡ rate_limit_bucket now window
unfolding retry_after_seconds rate_limit_retry_after rate_limit_bucket
retry_after_seconds-early now window h fraction early =
    let k = now / second / window in
    let told = announced now window in
    let u = now / second in
    let lo = div-mul-le_self u window in
    let hi = lt-div-mul-add {a = u} {b = window} h in
    let last : u + told + 1 ≡ k * window + window = ground arith in
    let at_ : (now + told * second) / second ≡ u + told = omega arith in
    let same : (u + told) / window ≡ k = div-eq_of_lt-le window (omega arith) (omega arith) in
    ap (λ q. q * window * second) (ap (λ q. q / window) at_ ∙ same)
