-- ===== src/Sourcemap.antt =====
-- internal/app/sourcemaps: parsing a version 3 source map (parser.go), resolving a generated position
-- in it (lookup.go) and applying stored maps to an event (apply.go, service.go). The children with
-- the definitions are `Vlq`, `Mappings`, `Lookup` and `Apply`; the others are proofs about them.
pub mod Vlq
pub mod Mappings
pub mod Lookup
pub mod Apply
pub mod Search
pub mod Sorted
pub mod Resolution
pub mod RoundTrip
pub mod Termination
mod Tests
