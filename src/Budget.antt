-- ===== src/Budget.antt =====
-- internal/tierer/redis.go: the daily budgets, `reserveBudgetScript` and `Reserve`.
pub mod Script
pub mod Reserve
pub mod Reservation
