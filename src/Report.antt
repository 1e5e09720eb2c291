-- ===== src/Report.antt =====
-- internal/report/envelope.go: the report of a task, its files and their verification.
pub mod Types
pub mod Validate
pub mod Markdown
pub mod Disk
pub mod Published
pub mod Examples
