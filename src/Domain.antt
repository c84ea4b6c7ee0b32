-- ===== src/Domain.antt =====
-- internal/domain: the values that the rest of the program is built from, each with its checks.
pub mod Event
pub mod Ids
pub mod JsFrames
pub mod Native
pub mod Tests
