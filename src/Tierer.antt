-- ===== src/Tierer.antt =====
-- The configuration of the tierer, internal/tierer/config.go, and what internal/tierer/service.go
-- makes of it.
pub mod Env
pub mod Config
pub mod Settled
pub mod Loaded
pub mod Service
pub mod Stopped
