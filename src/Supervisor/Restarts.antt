-- ===== src/Supervisor/Restarts.antt =====
-- internal/supervisor/commit.go: a restart after a commit that any disk interrupts.
use mathlib.Core.Path.{subst}
use subagent_broker.Common.{
  ℕ, ◌+◌, ◌<◌, String, Bool, true, false, not, Option, some, ◌≡◌, ◌≢◌, refl, sym, ap, ◌∙◌, ◌⊎◌, inl,
  inr, nat_eq, if◌then◌else◌, Result, ok, err, arith,
}
use subagent_broker.Message.Json.{Json, RawMessage}
use subagent_broker.Attempts.Types.{WorkerSession}
use subagent_broker.Journal.Lines.{Bytes}
use subagent_broker.Journal.Split.{NoNewline}
use subagent_broker.Journal.File.{ReplayDisk}
use subagent_broker.Journal.Events.{
  Event, Input, EventStore, EventError, Seen, see, append_event, event_of, two_64,
}
use subagent_broker.Journal.Sequence.{
  append_event-Wrote, append_event-Continues, append_event-replays, Continues-replays,
}
use subagent_broker.Supervisor.Types.{TaskRuntime, Snapshot}
use subagent_broker.Supervisor.Commit.{
  Service, SnapshotDisk, persisted, not_stored, stored_only, World, CommitError, event_stage,
  context_done, not_accepting, CommitRequest, candidate_of, fail_closed, install, checkpointed,
  journalled, commit_candidate, commit,
}
use subagent_broker.Supervisor.Restore.{Restores}
use subagent_broker.Supervisor.Recovery.{
  untimed, Describes, Rebuilds, Settled, Recovers, reads_before, reads_one_more, reads_installed,
}

module _ (encode : Event → Option Bytes) (decode : Bytes → Option Event)
    (decode_worker : Json → Option WorkerSession) (decode_runtime : Json → Option TaskRuntime)
    (to_int : String → ℕ) (now : ℕ) where
  pub described :
      (input : Input) (s : Service) (seen : Seen) (at : Snapshot) (payload : RawMessage)
      (id : String) (time : ℕ)
      → Settled encode decode decode_worker decode_runtime to_int now s seen at
      → input.payload ≡ some payload
      → Describes input at (event_of s.events input payload id time)
  unfolding event_of
  described input s seen at payload id time h p = record {
    payload = p;
    type = refl;
    task = refl;
    run = sym (ap (λ (x : Snapshot). x.run.run_id) h.same ∙ h.same_run);
    seq = omega (arith, h.journal.next, h.caught_up);
  }

  pub event_next :
      (input : Input) (s : Service) (seen : Seen) (at : Snapshot) (payload : RawMessage)
      (id : String) (time : ℕ)
      → Settled encode decode decode_worker decode_runtime to_int now s seen at
      → (event_of s.events input payload id time).seq ≡ seen.last_seq + 1
  unfolding event_of
  event_next input s seen at payload id time h = h.journal.next

  module _
      (law : (e : Event) (line : Bytes)
        → encode e ≡ some line
        → (decode line ≡ some e) × NoNewline line) where
    -- A restart from the old state.json and the journal after the append of an event.
    restarts_old :
        (request : CommitRequest) (world : World) (s : Service) (seen : Seen)
        (at candidate : Snapshot) (id : String)
        → Settled encode decode decode_worker decode_runtime to_int now s seen at
        → Rebuilds encode decode decode_worker decode_runtime to_int now request s.snapshot
        → id ≢ ""
        → candidate_of request s.snapshot ≡ ok candidate
        → let events =
            (append_event encode decode world.append_disk world.append_time
              (some id)
              request.event
              s.events).0 in
          (r : Snapshot) × (Restores encode decode decode_worker decode_runtime to_int
            ReplayDisk.works now s.stored events.file r)
          × ((untimed r ≡ untimed s.snapshot) ⊎ (untimed r ≡ untimed candidate))
    restarts_old request world s seen at candidate id h rebuilds named c =
        let (clean, outcome) =
          append_event-replays encode decode law world.append_disk world.append_time id
            request.event s.events seen h.journal h.run_named named in
        elim outcome [
          | inl same ↦ (
            at,
            reads_before encode decode decode_worker decode_runtime to_int now _ s seen at h
                (clean, same),
            inl h.same,
          )
          | inr (payload, p, more) ↦
              let e = event_of s.events request.event payload id world.append_time in
              let (r, applied, same) =
                rebuilds at candidate e h.same c
                  (described request.event s seen at payload id world.append_time h p) in
              (
                r,
                reads_one_more encode decode decode_worker decode_runtime to_int now _ s seen at r e
                    h (event_next request.event s seen at payload id world.append_time h)
                    (clean, more) applied,
                inr same,
              )
        ]

    install_restarts :
        (request : CommitRequest) (s : Service) (candidate r final : Snapshot) (e : Event)
        (events : EventStore) (disk : SnapshotDisk)
        → candidate_of request s.snapshot ≡ ok candidate
        → untimed final ≡ untimed candidate
        → Restores encode decode decode_worker decode_runtime to_int ReplayDisk.works now s.stored
            events.file r
        → untimed r ≡ untimed candidate
        → Restores encode decode decode_worker decode_runtime to_int ReplayDisk.works now final
            events.file final
        → Recovers encode decode decode_worker decode_runtime to_int now request s
            (install disk final e (record s { events = events }))
    unfolding install fail_closed
    install_restarts request s candidate r final e events persisted c f old same new =
        (final, new, inr (candidate, c, f))
    install_restarts request s candidate r final e events not_stored c f old same new =
        (r, old, inr (candidate, c, same))
    install_restarts request s candidate r final e events stored_only c f old same new =
        (final, new, inr (candidate, c, f))

    -- A restart after an append without an error.
    restarts_appended :
        (request : CommitRequest) (world : World) (s : Service) (seen : Seen)
        (at candidate : Snapshot) (id : String) (events : EventStore) (e : Event)
        (disk : SnapshotDisk)
        → Settled encode decode decode_worker decode_runtime to_int now s seen at
        → Rebuilds encode decode decode_worker decode_runtime to_int now request s.snapshot
        → id ≢ ""
        → s.events.next_seq + 1 < two_64
        → candidate_of request s.snapshot ≡ ok candidate
        → append_event encode decode world.append_disk world.append_time
            (some id)
            request.event
            s.events
          ≡ (events, ok e)
        → Recovers encode decode decode_worker decode_runtime to_int now request s
            (install disk (checkpointed world e candidate) e (record s { events = events }))
    restarts_appended request world s seen at candidate id events e disk h rebuilds named bound c
          done =
        let grown =
          append_event-Continues encode decode law world.append_disk world.append_time id
            request.event s.events events seen e h.journal h.run_named named bound done in
        let read = Continues-replays encode decode events (see e seen) grown in
        let wrote =
          append_event-Wrote encode decode world.append_disk world.append_time id request.event
            s.events events e done in
        let next : e.seq ≡ seen.last_seq + 1 =
          rw wrote.made (event_next request.event s seen at wrote.payload id world.append_time h) in
        let about : Describes request.event at e =
          subst (Describes request.event at) (sym wrote.made)
            (described request.event s seen at wrote.payload id world.append_time h wrote.given) in
        let (r, applied, same) = rebuilds at candidate e h.same c about in
        let final = checkpointed world e candidate in
        install_restarts request s candidate r final e events disk c refl
          (reads_one_more encode decode decode_worker decode_runtime to_int now events.file s seen
            at r e h next read applied)
          same
          (reads_installed encode decode decode_worker decode_runtime to_int now events.file final
            seen e h.rising next refl read)

    restarts_written :
        (request : CommitRequest) (world : World) (s : Service) (seen : Seen)
        (at candidate : Snapshot) (id : String) (written : EventStore × Result EventError Event)
        → Settled encode decode decode_worker decode_runtime to_int now s seen at
        → Rebuilds encode decode decode_worker decode_runtime to_int now request s.snapshot
        → id ≢ ""
        → s.events.next_seq + 1 < two_64
        → candidate_of request s.snapshot ≡ ok candidate
        → append_event encode decode world.append_disk world.append_time
            (some id)
            request.event
            s.events
          ≡ written
        → Recovers encode decode decode_worker decode_runtime to_int now request s
            (journalled encode decode world candidate s written)
    unfolding journalled fail_closed
    restarts_written request world s seen at candidate id (events, ok e) h rebuilds named bound c
          w =
        restarts_appended request world s seen at candidate id events e world.snapshot_disk h
          rebuilds named bound c w
    restarts_written request world s seen at candidate id (events, err x) h rebuilds named bound c
          w =
        let (r, restored, same) =
          restarts_old request world s seen at candidate id h rebuilds named c in
        let restored_there =
          subst
            (λ (v : EventStore).
              Restores encode decode decode_worker decode_runtime to_int ReplayDisk.works now
                s.stored v.file r)
            (ap (λ (v : EventStore × Result EventError Event). v.0) w) restored in
        elim same [
          | inl before ↦ (r, restored_there, inl (before, (event_stage x, refl)))
          | inr done ↦ (r, restored_there, inr (candidate, c, done))
        ]

    restarts_checked :
        (request : CommitRequest) (world : World) (s : Service) (seen : Seen) (at : Snapshot)
        (id : String) (checked : Result CommitError Snapshot)
        → Settled encode decode decode_worker decode_runtime to_int now s seen at
        → Rebuilds encode decode decode_worker decode_runtime to_int now request s.snapshot
        → id ≢ ""
        → world.new_id ≡ some id
        → s.events.next_seq + 1 < two_64
        → candidate_of request s.snapshot ≡ checked
        → Recovers encode decode decode_worker decode_runtime to_int now request s
            (commit_candidate encode decode world request.event checked s)
    unfolding commit_candidate
    restarts_checked request world s seen at id (err x) h rebuilds named i bound c = (
      at,
      reads_before encode decode decode_worker decode_runtime to_int now s.events.file s seen at h
          (Continues-replays encode decode s.events seen h.journal),
      inl (h.same, (x, refl)),
    )
    restarts_checked request world s seen at id (ok candidate) h rebuilds named i bound c =
        restarts_written request world s seen at candidate id _ h rebuilds named bound c (rw i refl)

    -- Whatever the disk does to a commit, a later restart from state.json and the event journal, on
    -- a disk that works, ends without an error; its replay gives the snapshot from before the commit,
    -- or the candidate of the request, and it gives that snapshot with its attempts migrated. The
    -- replay gives the first only if the commit failed. The times of the
    -- run, the time of the update and the checkpoint are left out of the comparison. The reducer
    -- rebuilds the candidate from the event. The snapshot in memory was what the replay of
    -- a restart gave before; `decode` reads what `encode` wrote, in which there is no newline; the event has an id, and
    -- the sequence numbers do not reach their last.
    pub commit-Recovers :
        (request : CommitRequest) (world : World) (s : Service) (seen : Seen) (at : Snapshot)
        (id : String)
        → Settled encode decode decode_worker decode_runtime to_int now s seen at
        → Rebuilds encode decode decode_worker decode_runtime to_int now request s.snapshot
        → id ≢ ""
        → world.new_id ≡ some id
        → s.events.next_seq + 1 < two_64
        → Recovers encode decode decode_worker decode_runtime to_int now request s
            (commit encode decode world request s)
    unfolding commit
    commit-Recovers request world s seen at id h rebuilds named i bound =
        go world.cancelled s.accepting_work
      where
        refused :
            (x : CommitError)
            → Recovers encode decode decode_worker decode_runtime to_int now request s (s, err x)
        refused x = (
          at,
          reads_before encode decode decode_worker decode_runtime to_int now s.events.file s seen at
              h (Continues-replays encode decode s.events seen h.journal),
          inl (h.same, (x, refl)),
        )

        go :
            (c a : Bool)
            → Recovers encode decode decode_worker decode_runtime to_int now request s (
                if c
                then (s, err context_done)
                else if not a
                then (s, err not_accepting)
                else commit_candidate encode decode world request.event
                    (candidate_of request s.snapshot)
                    s)
        go true a = refused context_done
        go false false = refused not_accepting
        go false true = restarts_checked request world s seen at id _ h rebuilds named i bound refl
