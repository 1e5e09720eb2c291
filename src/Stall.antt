-- ===== src/Stall.antt =====
-- internal/stall/assess.go: whether a quiet worker is stalled.
pub mod Assess
pub mod Verdict
mod Examples
