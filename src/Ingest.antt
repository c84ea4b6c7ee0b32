-- ===== src/Ingest.antt =====
-- Ingestion of an event: its grouping (internal/plans/grouping), the workflow of
-- internal/app/ingest and the transaction around it (internal/adapters/postgres/store.go).
pub mod Grouping
pub mod Transaction
pub mod TxStore
pub mod Tests
pub mod Workflow
