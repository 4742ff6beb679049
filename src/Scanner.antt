-- ===== src/Scanner.antt =====
-- internal/tierer/scanner.go: the traversal of the objects, and what is done with each of them.
pub mod Effects
pub mod Objects
pub mod Safety
pub mod Scans
pub mod Progress
pub mod Cursors
pub mod Buckets
pub mod Audit
pub mod Sorting
pub mod Chunks
