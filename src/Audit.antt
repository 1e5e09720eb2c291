-- ===== src/Audit.antt =====
-- internal/verify: the audit of a wave's changed files against its write leases.
pub mod Policy
pub mod Classify
pub mod Cases
pub mod Partition
pub mod Owners
pub mod Workspace
pub mod Changes
pub mod Examples
