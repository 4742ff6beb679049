-- ===== src/Decimal.antt =====
-- The decimal strings of the Lua scripts (internal/redisstore/store.go and
-- internal/tierer/redis.go): `valid_uint`, `add_uint` and `less_or_equal`.
pub mod Defs
pub mod Value
pub mod Order
pub mod Rounds
pub mod Add
