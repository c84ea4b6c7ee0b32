-- ===== src/Issues.antt =====
-- Issues: their status, assignment and search (internal/app/issues/query.go,
-- internal/adapters/postgres/issues_status.go).
pub mod Query
pub mod Status
pub mod Assignment
pub mod Tests
