-- ===== src/Uptime.antt =====
-- Uptime monitors: internal/app/uptime/uptime.go, internal/domain/uptime_monitor.go and
-- internal/adapters/postgres/uptime.go.
pub mod Monitor
pub mod Checks
pub mod Incidents
pub mod Race
pub mod Definition
pub mod Bounds
pub mod Summary
mod Tests
