-- ===== src/Contracts.antt =====
-- internal/contracts/contracts.go: the hours of a window, expiries and retention.
pub mod Defs
pub mod Windows
pub mod Coverage
pub mod Base64
pub mod Keys
