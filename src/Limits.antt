-- ===== src/Limits.antt =====
-- What the server refuses for volume: rate limits of project keys (internal/app/ratelimit,
-- internal/adapters/postgres/rate_limit.go), daily quotas (internal/adapters/postgres/quota.go), and
-- the purge of old data (internal/app/retention).
pub mod RateLimit
pub mod Quota
pub mod Retention
pub mod Tests
