-- ===== src/Supervisor/Telemetry.antt =====
-- internal/supervisor/state_commit.go, internal/supervisor/reducer.go: events that change no snapshot.
use subagent_broker.Common.{List, [], ◌∷◌, string_eq, String, nat_eq}
use subagent_broker.Message.Json.{Json}

-- The types of events that the switch of `ApplyEvent` has a case for.
abbrev pub switch_types : List String
switch_types =
    "run.state_changed" ∷ "wave.state_changed" ∷ "task.state_changed" ∷ "task.reported_complete"
    ∷ "task.verified_success" ∷ "task.verification_failed" ∷ "worker.attempt_started"
    ∷ "worker.attempt_finished" ∷ "task.runtime_updated" ∷ "process.state_changed"
    ∷ "process.spawned" ∷ "process.exited" ∷ "process.orphaned" ∷ "protocol.state_changed"
    ∷ "worker.stall_assessed" ∷ "worker.stall_cleared" ∷ "progress.state_changed"
    ∷ "supervisor.heartbeat" ∷ []
