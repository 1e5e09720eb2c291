-- ===== src/Scope.antt =====
-- internal/scope/scope.go: patterns of project-relative paths, and who may write where.
pub mod Text
pub mod Glob
pub mod Pattern
pub mod Leases
pub mod Prefix
pub mod Disjoint
pub mod Single
pub mod Examples
