-- ===== src/Supervisor/Failed.antt =====
-- internal/supervisor/commit.go: what a commit leaves when it fails, and in what order it writes.
use subagent_broker.Common.{
  Bool, true, false, Option, ◌≡◌, refl, ◌⊎◌, inl, inr, not, string_eq, if◌then◌else◌, Result, ok,
  err,
}
use subagent_broker.Journal.Lines.{Bytes}
use subagent_broker.Journal.Events.{Event, EventStore, EventError}
use subagent_broker.Supervisor.Types.{Snapshot}
use subagent_broker.Supervisor.Commit.{
  Service, SnapshotDisk, persisted, not_stored, stored_only, World, CommitError, context_done,
  not_accepting, event_stage, snapshot_stage, CommitRequest, candidate_of, fail_closed, install,
  checkpointed, journalled, commit_candidate, commit,
}

-- A failure at a stage where something is written.
abbrev pub IsFatal : CommitError → Type 0
IsFatal x = ((y : EventError) × (x ≡ event_stage y)) ⊎ (x ≡ snapshot_stage)

-- A fatal failure: nothing is installed and no more work is accepted.
abbrev pub FailsClosed : Service → Service × Result CommitError Event → Type 0
FailsClosed s (after, result) =
    ((x : CommitError) × (result ≡ err x) × IsFatal x)
    × (after.snapshot ≡ s.snapshot)
    × (after.accepting_work ≡ false)
    × (after.failure_reported ≡ true)

-- The checks failed, and nothing has changed.
abbrev pub Refused : Service → Service × Result CommitError Event → Type 0
Refused s out = (x : CommitError) × (out ≡ (s, err x))

-- What a commit that succeeded has done.
abbrev pub Installed : World → CommitRequest → Service → Service × Result CommitError Event → Type 0
Installed world request s (after, result) =
    (e : Event) × (candidate : Snapshot) × (result ≡ ok e)
    × (candidate_of request s.snapshot ≡ ok candidate)
    × (after.snapshot ≡ checkpointed world e candidate)
    × (after.stored ≡ after.snapshot)
    × (after.accepting_work ≡ true)

abbrev pub Ends : World → CommitRequest → Service → Service × Result CommitError Event → Type 0
Ends world request s out = Refused s out ⊎ FailsClosed s out ⊎ Installed world request s out

install-Ends :
    (world : World) (request : CommitRequest) (candidate : Snapshot) (e : Event) (s : Service)
    (events : EventStore) (disk : SnapshotDisk)
    → s.accepting_work ≡ true
    → candidate_of request s.snapshot ≡ ok candidate
    → Ends world request s
        (install disk (checkpointed world e candidate) e (record s { events = events }))
unfolding install fail_closed
install-Ends world request candidate e s events persisted a c =
    inr (inr (e, candidate, refl, c, refl, refl, a))
install-Ends world request candidate e s events not_stored a c =
    inr (inl ((snapshot_stage, refl, inr refl), refl, refl, refl))
install-Ends world request candidate e s events stored_only a c =
    inr (inl ((snapshot_stage, refl, inr refl), refl, refl, refl))

module _ (encode : Event → Option Bytes) (decode : Bytes → Option Event) where
  journalled-Ends :
      (world : World) (request : CommitRequest) (candidate : Snapshot) (s : Service)
      (written : EventStore × Result EventError Event)
      → s.accepting_work ≡ true
      → candidate_of request s.snapshot ≡ ok candidate
      → Ends world request s (journalled encode decode world candidate s written)
  unfolding journalled fail_closed
  journalled-Ends world request candidate s (events, err x) a c =
      inr (inl ((event_stage x, refl, inl (x, refl)), refl, refl, refl))
  journalled-Ends world request candidate s (events, ok e) a c =
      install-Ends world request candidate e s events world.snapshot_disk a c

  checked-Ends :
      (world : World) (request : CommitRequest) (s : Service)
      (checked : Result CommitError Snapshot)
      → s.accepting_work ≡ true
      → candidate_of request s.snapshot ≡ checked
      → Ends world request s (commit_candidate encode decode world request.event checked s)
  unfolding commit_candidate
  checked-Ends world request s (err x) a c = inl (x, refl)
  checked-Ends world request s (ok candidate) a c = journalled-Ends world request candidate s _ a c

  -- A commit has one of three ends. It is refused, and nothing has changed. It fails when it writes the
  -- event or the snapshot, and then the snapshot in memory is the one before, no more work is accepted
  -- and the failure is reported. Or it succeeds, and the snapshot in memory and in state.json is the
  -- candidate that the request makes of the one before, with the number of the event.
  pub commit_ends :
      (world : World) (request : CommitRequest) (s : Service)
      → let out = commit encode decode world request s in
        Refused s out ⊎ FailsClosed s out ⊎ Installed world request s out
  unfolding commit
  commit_ends world request s = go world.cancelled s.accepting_work refl
    where
      go :
          (c a : Bool)
          → s.accepting_work ≡ a
          → Ends world request s (
              if c
              then (s, err context_done)
              else if not a
              then (s, err not_accepting)
              else commit_candidate encode decode world request.event
                  (candidate_of request s.snapshot)
                  s)
      go true a h = inl (context_done, refl)
      go false false h = inl (not_accepting, refl)
      go false true h = checked-Ends world request s (candidate_of request s.snapshot) h refl
