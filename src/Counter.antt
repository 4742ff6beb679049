-- ===== src/Counter.antt =====
-- internal/redisstore/store.go: the counter batch, its script and its store.
pub mod Script
pub mod Writes
pub mod Batch
pub mod Store
pub mod Apply
pub mod Arguments
