-- ===== src/Notify.antt =====
-- Notifications of opened issues: internal/app/notifications (ports.go, workflow.go),
-- internal/plans/notifyplan/telegram.go and internal/adapters/postgres/notifications.go.
pub mod Plan
pub mod Ports
pub mod Messages
pub mod Outbox
pub mod Store
pub mod Marks
pub mod Batch
pub mod Batches
pub mod Channel
pub mod Rows
pub mod Settle
pub mod Lease
pub mod Runs
pub mod Idle
pub mod Retry
pub mod Report
pub mod Enqueue
pub mod Dedupe
pub mod Texts
mod Tests
