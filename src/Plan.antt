-- ===== src/Plan.antt =====
-- internal/task, internal/wave/preflight.go and internal/run/plan.go: the checks that a plan passes
-- before it is run.
pub mod Types
pub mod Contract
pub mod Issues
pub mod Preflight
pub mod Severity
pub mod Allowed
pub mod Validate
pub mod Earlier
pub mod Ranked
pub mod Leases
pub mod Examples
