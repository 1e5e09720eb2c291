-- ===== src/Supervisor/Commit.antt =====
-- internal/supervisor/commit.go, state_commit.go: `Commit` and its callers, which hold the mutex of the
-- supervisor. A deep copy of a snapshot is the snapshot.
use subagent_broker.Common.{
  ℕ, String, Bool, true, false, Option, none, some, ◌==◌, ◌||◌, not, string_eq, if◌then◌else◌,
  Result, ok, err, ◌>>=◌, ◌>>◌, fail_if,
}
use subagent_broker.Journal.Lines.{Bytes}
use subagent_broker.Journal.File.{AppendDisk}
use subagent_broker.Journal.Events.{Event, Input, EventStore, EventError, append_event}
use subagent_broker.Supervisor.Types.{Snapshot, SnapshotError}

-- The parts of `Service` that a commit uses. `stored` is the snapshot in state.json, which
-- `persistSnapshotLocked` replaces atomically and before the files that repeat parts of it.
-- `failure_reported` says that the channel of fatal failures has one, and `workers_cancelled` that the
-- active workers were cancelled.
pub record Service : Type 0 where
  pub snapshot : Snapshot
  pub accepting_work : Bool
  pub events : EventStore
  pub stored : Snapshot
  pub failure_reported : Bool
  pub workers_cancelled : Bool

-- What the disk does to a snapshot: all files are written; state.json is not; state.json is and a later
-- file is not.
pub data SnapshotDisk : Type 0 where
  persisted not_stored stored_only : SnapshotDisk

-- What the world does to one commit.
pub record World : Type 0 where
  pub cancelled : Bool
  pub append_disk : AppendDisk
  pub snapshot_disk : SnapshotDisk
  pub new_id : Option String
  pub append_time : ℕ
  pub commit_time : ℕ

-- `CommitError` with its stage, or the error of the context.
pub data CommitError : Type 0 where
  context_done not_accepting source_and_type_required : CommitError
  rejected : SnapshotError → CommitError
  event_stage : EventError → CommitError
  snapshot_stage : CommitError

-- `CommitRequest`; a function that is nil is one that accepts.
pub record CommitRequest : Type 0 where
  pub event : Input
  pub mutate : Snapshot → Result SnapshotError Snapshot
  pub validate : Snapshot → Snapshot → Result SnapshotError (Unit {0})

-- The steps of `Commit` before the event is appended.
unfoldable pub candidate_of : CommitRequest → Snapshot → Result CommitError Snapshot
candidate_of request before =
    elim (do candidate ← request.mutate before; request.validate before candidate; ok candidate) [
      | err e ↦ err (rejected e)
      | ok candidate ↦ do
        fail_if (request.event.source == "" || request.event.type == "") source_and_type_required
        ok candidate
    ]

-- A fatal failure: the supervisor accepts no more work and reports it.
unfoldable pub fail_closed : Service → Service
fail_closed s = record s { accepting_work = false; failure_reported = true }

-- The end of `Commit`, when the event is in the journal.
unfoldable pub install :
    SnapshotDisk → Snapshot → Event → Service → Service × Result CommitError Event
unfolding fail_closed
install persisted candidate e s = (record s { snapshot = candidate; stored = candidate }, ok e)
install not_stored candidate e s = (fail_closed s, err snapshot_stage)
install stored_only candidate e s =
    (fail_closed (record s { stored = candidate }), err snapshot_stage)

abbrev pub checkpointed : World → Event → Snapshot → Snapshot
checkpointed world e candidate = record candidate {
  applied_event_seq = e.seq;
  updated_at = world.commit_time;
}

module _ (encode : Event → Option Bytes) (decode : Bytes → Option Event) where
  unfoldable pub journalled :
      World
      → Snapshot
      → Service
      → EventStore × Result EventError Event
      → Service × Result CommitError Event
  unfolding install fail_closed
  journalled world candidate s (events, err x) =
      (fail_closed (record s { events = events }), err (event_stage x))
  journalled world candidate s (events, ok e) =
      install world.snapshot_disk (checkpointed world e candidate) e (record s { events = events })

  unfoldable pub commit_candidate :
      World → Input → Result CommitError Snapshot → Service → Service × Result CommitError Event
  unfolding journalled
  commit_candidate world input (err x) s = (s, err x)
  commit_candidate world input (ok candidate) s =
      journalled world candidate s
        (append_event encode decode world.append_disk world.append_time world.new_id input s.events)

  -- `Commit`.
  unfoldable pub commit : World → CommitRequest → Service → Service × Result CommitError Event
  unfolding commit_candidate
  commit world request s =
      if world.cancelled
      then (s, err context_done)
      else if not s.accepting_work
      then (s, err not_accepting)
      else commit_candidate world request.event (candidate_of request s.snapshot) s

  -- `onCommitFailure`.
  unfoldable pub on_commit_failure : CommitError → Service → Service
  on_commit_failure (event_stage x) s = record s { workers_cancelled = true }
  on_commit_failure snapshot_stage s = record s { workers_cancelled = true }
  on_commit_failure _ s = s

  unfoldable pub after_commit : Service × Result CommitError Event → Service × Option CommitError
  unfolding on_commit_failure
  after_commit (s, ok e) = (s, none)
  after_commit (s, err x) = (on_commit_failure x s, some x)

  -- `commitMutate`; its context is never done.
  unfoldable pub commit_mutate :
      World
      → Input
      → (Snapshot → Result SnapshotError Snapshot)
      → Service
      → Service × Option CommitError
  unfolding after_commit
  commit_mutate world input mutate s =
      if not s.accepting_work
      then (s, some not_accepting)
      else after_commit (
          commit (record world { cancelled = false })
            (record { event = input; mutate = mutate; validate = λ before candidate. ok tt }) s)

  unfoldable pub appended_only :
      Service → EventStore × Result EventError Event → Service × Option CommitError
  unfolding fail_closed
  appended_only s (events, ok e) = (record s { events = events }, none)
  appended_only s (events, err x) = (
    record (fail_closed (record s { events = events })) { workers_cancelled = true },
    some (event_stage x),
  )

  -- `appendEvent`, where there is an event store.
  unfoldable pub append_telemetry : World → Input → Service → Service × Option CommitError
  unfolding appended_only
  append_telemetry world input s =
      if not s.accepting_work
      then (s, some not_accepting)
      else appended_only s (
          append_event encode decode world.append_disk world.append_time world.new_id input
            s.events)
