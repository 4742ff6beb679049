-- ===== src/Batcher.antt =====
-- internal/updater/batcher.go: requests are queued, merged into batches and written to the store.
pub mod Pending
pub mod Limits
pub mod Defs
pub mod Accounting
pub mod History
pub mod Shutdown
