-- ===== src/Protocol.antt =====
-- internal/adapters/sentryprotocol/envelope.go: the envelopes in which SDKs send events, logs and user
-- reports.
pub mod Lines
pub mod Items
pub mod Envelope
pub mod Framing
pub mod Content
mod Tests
