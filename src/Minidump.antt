-- ===== src/Minidump.antt =====
-- internal/app/minidumps/metadata.go: reading native modules and the crashing frame out of an
-- uploaded Microsoft minidump. `Layout` reads numbers and strings at 32-bit offsets, `Streams` the
-- stream directory, the module list and the exception record; the other children are proofs.
pub mod Layout
pub mod Streams
pub mod Inversion
pub mod Bounds
pub mod Fields
pub mod Modules
pub mod Crash
pub mod Identifiers
pub mod Collisions
mod Tests
