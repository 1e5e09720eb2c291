-- ===== src/Supervisor.antt =====
-- internal/supervisor: the snapshot of a run, the commits that change it, and the reducer that rebuilds
-- it from the event journal after a crash.
pub mod Types
pub mod Reducer
pub mod Apply
pub mod Commit
pub mod Status
pub mod Failed
pub mod Saved
pub mod Restore
pub mod Replay
pub mod Recovery
pub mod Restarts
pub mod Rebuilt
pub mod TaskRebuilt
pub mod StatusRestarts
pub mod WaveEvents
pub mod Divergence
pub mod SavedDivergence
pub mod Onward
pub mod Telemetry
mod Examples
