-- ===== src/Supervisor/Replay.antt =====
-- internal/supervisor/reducer.go: a replay of a journal that has grown by one event.
use subagent_broker.Common.{
  ℕ, ◌<◌, ◌≤◌, String, Option, none, List, [], ◌∷◌, ◌++◌, ◌≡◌, refl, inl, inr, leb, nat_eq, ok,
  arith, All, Bool-cases, Result-cases,
}
use subagent_broker.Message.Json.{Json}
use subagent_broker.Attempts.Types.{WorkerSession}
use subagent_broker.Journal.Lines.{Bytes}
use subagent_broker.Journal.File.{File, ReplayDisk}
use subagent_broker.Journal.Events.{Event, Seen, replay_events}
use subagent_broker.Supervisor.Types.{TaskRuntime, Snapshot}
use subagent_broker.Supervisor.Apply.{apply_event, replay_after, replay_snapshot}
use subagent_broker.Supervisor.Restore.{
  last_sequence, reduced, replay_checkpoint, Restores, replay_checkpoint-Restores,
}

pub last_sequence-snoc : (es : List Event) (e : Event) → last_sequence (es ++ e ∷ []) ≡ e.seq
unfolding last_sequence
last_sequence-snoc [] e = refl
last_sequence-snoc (a ∷ []) e = refl
last_sequence-snoc (a ∷ b ∷ rest) e = last_sequence-snoc (b ∷ rest) e

module _ (encode : Event → Option Bytes) (decode : Bytes → Option Event)
    (decode_worker : Json → Option WorkerSession) (decode_runtime : Json → Option TaskRuntime)
    (to_int : String → ℕ) (now : ℕ) where
  -- Events that the checkpoint has are skipped.
  pub replay_after-skips :
      (n : ℕ) (es : List Event) (s : Snapshot)
      → All (λ e. e.seq ≤ n) es
      → replay_after decode_worker decode_runtime to_int now n s es ≡ ok s
  unfolding replay_after
  replay_after-skips n [] s h = refl
  replay_after-skips n (e ∷ rest) s (h, k) = ground (arith, h, replay_after-skips n rest s k)

  pub replay_after-snoc :
      (n : ℕ) (es : List Event) (s at : Snapshot) (e : Event)
      → replay_after decode_worker decode_runtime to_int now n s es ≡ ok at
      → n < e.seq
      → replay_after decode_worker decode_runtime to_int now n s (es ++ e ∷ [])
        ≡ apply_event decode_worker decode_runtime to_int now at e
  unfolding replay_after
  replay_after-snoc n [] s at e h k =
      elim (Result-cases (apply_event decode_worker decode_runtime to_int now at e)) [
        | inl (r, a) ↦ ground (arith, h, k, a)
        | inr (x, a) ↦ ground (arith, h, k, a)
      ]
  replay_after-snoc n (d ∷ rest) s at e h k = elim (Bool-cases (leb d.seq n)) [
    | inl b ↦ ground (arith, b, h, replay_after-snoc n rest s at e)
    | inr b ↦ elim (Result-cases (apply_event decode_worker decode_runtime to_int now s d)) [
      | inl (r, a) ↦ ground (arith, b, a, h, replay_after-snoc n rest r at e)
      | inr (x, a) ↦ ground (arith, b, a, h)
    ]
  ]

  pub replay-Restores :
      (file : File) (stored r : Snapshot) (seen : Seen)
      → (let out = replay_events encode decode ReplayDisk.works file in
          (out.2 ≡ none) × (out.1.state ≡ seen))
      → stored.applied_event_seq ≤ last_sequence seen.events
      → replay_snapshot decode_worker decode_runtime to_int now stored seen.events ≡ ok r
      → Restores encode decode decode_worker decode_runtime to_int ReplayDisk.works now stored file
          r
  unfolding replay_checkpoint reduced
  replay-Restores file stored r seen (clean, state) behind h =
      replay_checkpoint-Restores encode decode decode_worker decode_runtime to_int ReplayDisk.works
        now stored file r (ground (arith, clean, state, behind, h))
