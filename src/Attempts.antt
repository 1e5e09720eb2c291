-- ===== src/Attempts.antt =====
-- internal/worker/attempt.go: the numbered worker executions of a task.
pub mod Types
pub mod Ops
pub mod Tracked
pub mod Managed
pub mod History
mod Examples
