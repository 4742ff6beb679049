-- ===== src/Evaluator.antt =====
-- internal/tierer/evaluator.go: the usage policy, and the action for one object.
pub mod Defs
pub mod Sums
pub mod Policies
pub mod Actions
