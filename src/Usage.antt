-- ===== src/Usage.antt =====
-- internal/tierer/redis.go: how the tierer reads counters and coverage.
pub mod Script
pub mod Reads
pub mod Counts
pub mod Failures
pub mod Objects
pub mod Covered
pub mod Chunk
