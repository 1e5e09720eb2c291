-- ===== src/State.antt =====
-- internal/state/state.go: the four dimensions of a worker's state.
pub mod Kinds
pub mod Transitions
pub mod Reach
pub mod TaskPaths
pub mod ProtocolPaths
mod Examples
