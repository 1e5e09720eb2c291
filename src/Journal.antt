-- ===== src/Journal.antt =====
-- internal/storage/jsonl.go: files of newline-terminated records, their repair and their growth;
-- internal/event/event.go: the event journal on such a file.
pub mod Lines
pub mod Split
pub mod File
pub mod Crash
pub mod Kept
pub mod Events
pub mod Sequence
pub mod Sample
mod Examples
