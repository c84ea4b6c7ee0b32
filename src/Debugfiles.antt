-- ===== src/Debugfiles.antt =====
-- Symbolication of native frames through Breakpad debug files: internal/app/debugfiles (breakpad.go,
-- apply.go).
pub mod Breakpad
pub mod Apply
pub mod Lookup
pub mod Table
pub mod Offsets
pub mod Frames
pub mod Tests
