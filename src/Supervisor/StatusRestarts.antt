-- ===== src/Supervisor/StatusRestarts.antt =====
-- internal/supervisor/state_commit.go: a restart after the commit of a status.
use subagent_broker.Common.{
  ℕ, ◌+◌, ◌<◌, String, Bool, true, false, Option, none, some, ◌≡◌, ◌≢◌, refl, ◌⊎◌, inl, inr, ◌==◌,
  ◌||◌, ◌&&◌, not, string_eq, if◌then◌else◌, Result, ok, err,
}
use subagent_broker.Message.Json.{Json}
use subagent_broker.State.Kinds.{Task, task_text, task_of_text}
use subagent_broker.State.Transitions.{StateError, validate_task_transition}
use subagent_broker.Attempts.Types.{WorkerSession}
use subagent_broker.Journal.Lines.{Bytes}
use subagent_broker.Journal.Split.{NoNewline}
use subagent_broker.Journal.File.{ReplayDisk}
use subagent_broker.Journal.Events.{Event, Input, Seen, two_64}
use subagent_broker.Journal.Sequence.{Continues-replays}
use subagent_broker.Supervisor.Types.{TaskRuntime, Snapshot, SnapshotError, invalid_transition}
use subagent_broker.Supervisor.Commit.{
  Service, World, CommitError, context_done, not_accepting, source_and_type_required, rejected,
  event_stage, snapshot_stage, commit, on_commit_failure, after_commit, commit_mutate,
}
use subagent_broker.Supervisor.Status.{
  run_input, mutate_run, task_input, mutate_task, set_run_status, transition_task,
}
use subagent_broker.Supervisor.Restore.{Restores}
use subagent_broker.Supervisor.Recovery.{untimed, Rebuilds, Settled, Recovers, reads_before}
use subagent_broker.Supervisor.Restarts.{commit-Recovers}
use subagent_broker.Supervisor.Rebuilt.{unvalidated, candidate_of-unvalidated, run_status-Rebuilds}
use subagent_broker.Supervisor.TaskRebuilt.{task_status, task_status-Rebuilds}

module _ (encode : Event → Option Bytes) (decode : Bytes → Option Event)
    (decode_worker : Json → Option WorkerSession) (decode_runtime : Json → Option TaskRuntime)
    (to_int : String → ℕ) (later : ℕ) where
  abbrev Restarted : Service → Snapshot → Type 0
  Restarted after r =
      Restores encode decode decode_worker decode_runtime to_int ReplayDisk.works later after.stored
        after.events.file r

  -- The replay of a restart gives the snapshot of before, if nothing was committed, or that of the
  -- mutation.
  abbrev pub Restarts :
      (Snapshot → Result SnapshotError Snapshot) → Service → Service × Option CommitError → Type 0
  Restarts mutate s (after, failure) =
      (r : Snapshot) × Restarted after r
      × (((untimed r ≡ untimed s.snapshot) × ((failure ≢ none) ⊎ (after ≡ s)))
          ⊎ ((candidate : Snapshot) × (mutate s.snapshot ≡ ok candidate)
              × (untimed r ≡ untimed candidate)))

  failure_keeps :
      (x : CommitError) (s : Service) (r : Snapshot)
      → Restarted s r
      → Restarted (on_commit_failure encode decode x s) r
  unfolding on_commit_failure
  failure_keeps context_done s r h = h
  failure_keeps not_accepting s r h = h
  failure_keeps source_and_type_required s r h = h
  failure_keeps (rejected e) s r h = h
  failure_keeps (event_stage e) s r h = h
  failure_keeps snapshot_stage s r h = h

  after_commit-Restarts :
      (input : Input) (mutate : Snapshot → Result SnapshotError Snapshot) (s : Service)
      (out : Service × Result CommitError Event)
      → Recovers encode decode decode_worker decode_runtime to_int later
          (unvalidated input mutate)
          s
          out
      → Restarts mutate s (after_commit encode decode out)
  unfolding after_commit
  after_commit-Restarts input mutate s (after, ok e) (r, h, inl (same, (x, never))) = cc never
  after_commit-Restarts input mutate s (after, ok e) (r, h, inr (c, made, same)) =
      (r, h, inr (c, candidate_of-unvalidated input mutate s.snapshot c made, same))
  after_commit-Restarts input mutate s (after, err x) (r, h, inl (same, failed)) =
      (r, failure_keeps x after r h, inl (same, inl λ e. cc e))
  after_commit-Restarts input mutate s (after, err x) (r, h, inr (c, made, same)) = (
    r,
    failure_keeps x after r h,
    inr (c, candidate_of-unvalidated input mutate s.snapshot c made, same),
  )

  module _
      (law : (e : Event) (line : Bytes)
        → encode e ≡ some line
        → (decode line ≡ some e) × NoNewline line)
      (world : World) (s : Service) (seen : Seen) (at : Snapshot) (id : String)
      (settled : Settled encode decode decode_worker decode_runtime to_int later s seen at)
      (named : id ≢ "") (made : world.new_id ≡ some id)
      (bound : s.events.next_seq + 1 < two_64) where
    unchanged :
        (mutate : Snapshot → Result SnapshotError Snapshot) (failure : Option CommitError)
        → Restarts mutate s (s, failure)
    unchanged mutate failure = (
      at,
      reads_before encode decode decode_worker decode_runtime to_int later s.events.file s seen at
          settled (Continues-replays encode decode s.events seen settled.journal),
      inl (settled.same, inr refl),
    )

    commit_mutate-Restarts :
        (input : Input) (mutate : Snapshot → Result SnapshotError Snapshot)
        → Rebuilds encode decode decode_worker decode_runtime to_int later
            (unvalidated input mutate)
            s.snapshot
        → Restarts mutate s (commit_mutate encode decode world input mutate s)
    unfolding commit_mutate
    commit_mutate-Restarts input mutate rebuilds = go s.accepting_work
      where
        go :
            (a : Bool)
            → Restarts mutate s (
                if not a
                then (s, some not_accepting)
                else after_commit encode decode (
                    commit encode decode
                      (record world { cancelled = false })
                      (unvalidated input mutate)
                      s))
        go false = unchanged mutate (some not_accepting)
        go true = after_commit-Restarts input mutate s _ (
            commit-Recovers encode decode decode_worker decode_runtime to_int later law
              (unvalidated input mutate) (record world { cancelled = false }) s seen at id settled
              rebuilds named made bound)

    -- Whatever the disk does while the status of a run is set, the replay of a later restart on a
    -- disk that works gives the snapshot as it was, and then the call failed or changed nothing, or
    -- the one with the new status, up to the times of the run and of the update and the checkpoint;
    -- the restart gives that snapshot with its attempts migrated. The status is not empty and the
    -- run has an id. The snapshot in memory was what the replay of a restart gave before; `decode`
    -- reads what `encode` wrote, in which there is no newline; the event has an id, and the sequence
    -- numbers do not reach their last.
    pub set_run_status-Restarts :
        (now : ℕ) (status reason : String)
        → status ≢ ""
        → s.snapshot.run.run_id ≢ ""
        → Restarts
            (mutate_run now status reason)
            s
            (set_run_status encode decode world now status reason s)
    unfolding set_run_status
    set_run_status-Restarts now status reason there run_named =
        go (s.snapshot.run.status == status && (reason == "" || s.snapshot.last_error == reason))
      where
        go :
            (b : Bool)
            → Restarts (mutate_run now status reason) s (
                if b
                then (s, none)
                else commit_mutate encode decode world
                    (run_input s.snapshot.run.status status reason)
                    (mutate_run now status reason)
                    s)
        go true = unchanged (mutate_run now status reason) none
        go false = commit_mutate-Restarts _ (mutate_run now status reason) (
            run_status-Rebuilds encode decode decode_worker decode_runtime to_int later now status
              reason s.snapshot there run_named)

    -- Whatever the disk does to a transition of a task, the replay of a later restart on a disk that
    -- works gives the snapshot as it was, and then the call failed or changed nothing, or the one in
    -- which the task has the next status, up to the times of the run and of the update and the
    -- checkpoint; the restart gives that snapshot with its attempts migrated. The caller knows the
    -- status of the task; the task and the run have an id; the next status is a text of its own that
    -- is not empty. The snapshot in memory was what the replay of a restart gave before; `decode`
    -- reads what `encode` wrote, in which there is no newline; the event has an id, and the sequence
    -- numbers do not reach their last.
    pub transition_task-Restarts :
        (now : ℕ) (task_id : String) (from next : Task)
        → task_id ≢ ""
        → task_text next ≢ ""
        → task_of_text (task_text next) ≡ next
        → task_status task_id s.snapshot.tasks ≡ some from
        → s.snapshot.run.run_id ≢ ""
        → Restarts
            (mutate_task now task_id next)
            s
            (transition_task encode decode world now task_id from next s)
    unfolding transition_task
    transition_task-Restarts now task_id from next task_named there own had run_named =
        go (validate_task_transition from next)
      where
        go :
            (checked : Result StateError (Unit {0}))
            → Restarts (mutate_task now task_id next) s (elim checked [
              | err e ↦ (s, some (rejected (invalid_transition e)))
              | ok _ ↦
                  commit_mutate encode decode world
                    (task_input task_id from next)
                    (mutate_task now task_id next)
                    s
            ])
        go (err e) =
            unchanged (mutate_task now task_id next) (some (rejected (invalid_transition e)))
        go (ok u) = commit_mutate-Restarts _ (mutate_task now task_id next) (
            task_status-Rebuilds encode decode decode_worker decode_runtime to_int later now task_id
              from next s.snapshot task_named there own had run_named)
