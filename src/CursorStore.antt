-- ===== src/CursorStore.antt =====
-- internal/tierer/redis.go: the cursor of a scan in Redis.
pub mod Defs
pub mod Client
pub mod Saved
