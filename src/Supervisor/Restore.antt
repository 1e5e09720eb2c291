-- ===== src/Supervisor/Restore.antt =====
-- internal/supervisor/runtime.go: the steps of `Load` that replay the event journal onto state.json and
-- migrate the attempts.
use subagent_broker.Common.{
  ℕ, String, Option, none, some, List, [], ◌∷◌, ◌≡◌, refl, ltb, if◌then◌else◌, Result, ok, err,
  ◌>>=◌,
}
use subagent_broker.Message.Json.{Json}
use subagent_broker.Attempts.Types.{WorkerSession}
use subagent_broker.Attempts.Ops.{migrate_attempts}
use subagent_broker.Journal.Lines.{Bytes}
use subagent_broker.Journal.File.{File, ReplayDisk, JsonlError}
use subagent_broker.Journal.Events.{Event, LineError, replay_events}
use subagent_broker.Supervisor.Types.{TaskRuntime, Snapshot, SnapshotError}
use subagent_broker.Supervisor.Apply.{replay_snapshot}

pub data RestoreError : Type 0 where
  unread_journal : JsonlError LineError → RestoreError
  snapshot_ahead : ℕ → ℕ → RestoreError
  unreduced : SnapshotError → RestoreError

-- `lastSequence`.
unfoldable pub last_sequence : List Event → ℕ
last_sequence [] = 0
last_sequence (e ∷ []) = e.seq
last_sequence (e ∷ rest) = last_sequence rest

-- The loop of `migrateAttempts` over the tasks.
unfoldable pub migrate_tasks : List TaskRuntime → List TaskRuntime
migrate_tasks [] = []
migrate_tasks (t ∷ rest) = record t { state = migrate_attempts t.state } ∷ migrate_tasks rest

unfoldable pub migrated : Snapshot → Snapshot
unfolding migrate_tasks
migrated s = record s { tasks = migrate_tasks s.tasks }

module _ (encode : Event → Option Bytes) (decode : Bytes → Option Event)
    (decode_worker : Json → Option WorkerSession) (decode_runtime : Json → Option TaskRuntime)
    (to_int : String → ℕ) where
  unfoldable pub reduced : ℕ → Snapshot → List Event → Result RestoreError Snapshot
  unfolding last_sequence
  reduced now stored events =
      if ltb (last_sequence events) stored.applied_event_seq
      then err (snapshot_ahead stored.applied_event_seq (last_sequence events))
      else elim (replay_snapshot decode_worker decode_runtime to_int now stored events) [
        | ok s ↦ ok s
        | err e ↦ err (unreduced e)
      ]

  -- The replay of the file of the journal onto a state.json that has tasks.
  unfoldable pub replay_checkpoint : ReplayDisk → ℕ → Snapshot → File → Result RestoreError Snapshot
  unfolding reduced
  replay_checkpoint disk now stored journal =
      let replay = replay_events encode decode disk journal in
      elim replay.2 [
        | some e ↦ err (unread_journal e)
        | none ↦ reduced now stored replay.1.state.events
      ]

  -- The snapshot of a restart: that of the replay, with the attempts of its tasks migrated.
  unfoldable pub restore : ReplayDisk → ℕ → Snapshot → File → Result RestoreError Snapshot
  unfolding replay_checkpoint migrated
  restore disk now stored journal = do
    s ← replay_checkpoint disk now stored journal
    ok (migrated s)

  -- The replay of a restart gives `r`, and the restart gives `r` migrated.
  abbrev pub Restores : ReplayDisk → ℕ → Snapshot → File → Snapshot → Type 0
  Restores disk now stored journal r =
      (replay_checkpoint disk now stored journal ≡ ok r)
      × (restore disk now stored journal ≡ ok (migrated r))

  pub replay_checkpoint-Restores :
      (disk : ReplayDisk) (now : ℕ) (stored : Snapshot) (journal : File) (r : Snapshot)
      → replay_checkpoint disk now stored journal ≡ ok r
      → Restores disk now stored journal r
  unfolding restore
  replay_checkpoint-Restores disk now stored journal r h = (h, rw h refl)
