-- ===== src/Barrier.antt =====
-- internal/wave/evaluator.go: the barrier that ends a wave.
pub mod Types
pub mod Evaluate
pub mod Verdict
pub mod Decision
pub mod Passed
mod Examples
