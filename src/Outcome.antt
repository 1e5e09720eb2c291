-- ===== src/Outcome.antt =====
-- internal/clioutcome/outcome.go: exit codes and outcomes of runs, waves and tasks.
pub mod Types
pub mod Convert
pub mod Sound
mod Examples
