-- ===== src/Journal/File.antt =====
-- internal/storage/jsonl.go: `AppendJSONL` and `ReplayJSONL` on one file, with what the disk does as
-- an argument. A file that does not exist is `none`.
use subagent_broker.Common.{
  ℕ, zero, suc, Bool, true, false, Option, none, some, [], ◌∷◌, ◌++◌, ◌==◌, nat_eq, if◌then◌else◌,
  Result, not,
}
use subagent_broker.Journal.Lines.{
  Bytes, newline, Ending, complete, incomplete, bad, out_of_fuel, Scan, scan,
}

abbrev pub File : Type 0
File = Option Bytes

-- The bytes of a file, none where there is no file.
abbrev pub content : File → Bytes
content none = []
content (some b) = b

unfoldable pub take : ℕ → Bytes → Bytes
take zero b = []
take (suc n) [] = []
take (suc n) (c ∷ b) = c ∷ take n b

unfoldable pub last_byte : Bytes → Option ℕ
last_byte [] = none
last_byte (c ∷ []) = some c
last_byte (c ∷ rest) = last_byte rest

-- What the disk does to an append: all is written; the directory or the file cannot be opened; the
-- write of the record stops after some bytes; the write of the newline fails; the sync or the close
-- fails after both writes.
pub data AppendDisk : Type 0 where
  written no_directory unopened : AppendDisk
  short : ℕ → AppendDisk
  no_newline unsynced : AppendDisk

pub data AppendError : Type 0 where
  empty_record trailing_newline incomplete_tail io_failure : AppendError

-- `ensureCompleteJSONLTail`.
unfoldable pub has_complete_tail : File → Bool
unfolding last_byte
has_complete_tail none = true
has_complete_tail (some b) = elim (last_byte b) [ none ↦ true | some c ↦ c == newline ]

unfoldable pub write : AppendDisk → Bytes → File → File × Option AppendError
write AppendDisk.written record_bytes f = (some (content f ++ (record_bytes ++ newline ∷ [])), none)
write AppendDisk.no_directory record_bytes f = (f, some io_failure)
write AppendDisk.unopened record_bytes f = (f, some io_failure)
write (AppendDisk.short n) record_bytes f =
    (some (content f ++ take n record_bytes), some io_failure)
write AppendDisk.no_newline record_bytes f = (some (content f ++ record_bytes), some io_failure)
write AppendDisk.unsynced record_bytes f =
    (some (content f ++ (record_bytes ++ newline ∷ [])), some io_failure)

unfoldable pub has_no_directory : AppendDisk → Bool
has_no_directory AppendDisk.no_directory = true
has_no_directory _ = false

-- `AppendJSONL`.
unfoldable pub append_jsonl : AppendDisk → Bytes → File → File × Option AppendError
unfolding write last_byte has_no_directory
append_jsonl disk record_bytes f = elim (last_byte record_bytes) [
  | none ↦ (f, some empty_record)
  | some c ↦
      if c == newline
      then (f, some trailing_newline)
      else if has_no_directory disk
      then (f, some io_failure)
      else if not (has_complete_tail f)
      then (f, some incomplete_tail)
      else write disk record_bytes f
]

-- What the disk does to a replay: it reads and repairs; it cannot read; the quarantine file cannot be
-- written; the cut fails, before or after the file is shorter.
pub data ReplayDisk : Type 0 where
  works unreadable no_quarantine uncut cut_unsynced : ReplayDisk

pub data JsonlError (E : Type 0) : Type 0 where
  unread unrepaired quarantine_failed truncate_failed no_fuel : JsonlError E
  bad_line : ℕ → ℕ → E → JsonlError E

-- `JSONLRepairResult`, with the state that the callbacks built; `quarantined` says that the path of
-- a quarantine file is returned.
pub record Replay (S : Type 0) : Type 0 where
  pub state : S
  pub record_count : ℕ
  pub last_valid_offset : ℕ
  pub incomplete_tail : Bool
  pub repaired : Bool
  pub quarantined : Bool

-- The journal, and the quarantine file that a repair wrote.
pub record Files : Type 0 where
  pub journal : File
  pub quarantine : File

abbrev pub Replayed : Type 0 → Type 0 → Type 0
Replayed E S = Files × Replay S × Option (JsonlError E)

unfoldable pub is_unreadable : ReplayDisk → Bool
is_unreadable ReplayDisk.unreadable = true
is_unreadable _ = false

unfoldable pub empty_replay : {S : Type 0} → S → Replay S
empty_replay s = record {
  state = s;
  record_count = 0;
  last_valid_offset = 0;
  incomplete_tail = false;
  repaired = false;
  quarantined = false;
}

abbrev files : File → File → Files
files journal quarantine = record { journal = journal; quarantine = quarantine }

module _ {E S : Type 0} where
  abbrev as_replay : Scan E S → Bool → Bool → Replay S
  as_replay s torn repaired = record {
    state = s.state;
    record_count = s.record_count;
    last_valid_offset = s.last_valid_offset;
    incomplete_tail = torn;
    repaired = repaired;
    quarantined = repaired;
  }

  -- The end of `ReplayJSONL` after an incomplete tail.
  unfoldable pub repair : ReplayDisk → Bytes → Bytes → Scan E S → Replayed E S
  repair ReplayDisk.no_quarantine file tail s =
      (files (some file) none, as_replay s true false, some quarantine_failed)
  repair ReplayDisk.uncut file tail s =
      (files (some file) (some tail), as_replay s true false, some truncate_failed)
  repair ReplayDisk.cut_unsynced file tail s = (
    files (some (take s.last_valid_offset file)) (some tail),
    as_replay s true false,
    some truncate_failed,
  )
  repair _ file tail s =
      (files (some (take s.last_valid_offset file)) (some tail), as_replay s true true, none)

  unfoldable pub replay_end : Bool → ReplayDisk → Bytes → Scan E S → Ending E → Replayed E S
  unfolding repair
  replay_end wanted disk file s complete = (files (some file) none, as_replay s false false, none)
  replay_end wanted disk file s (incomplete tail) =
      if wanted
      then repair disk file tail s
      else (files (some file) none, as_replay s true false, some unrepaired)
  replay_end wanted disk file s (bad n offset e) =
      (files (some file) none, as_replay s false false, some (bad_line n offset e))
  replay_end wanted disk file s out_of_fuel =
      (files (some file) none, as_replay s false false, some no_fuel)

  -- `ReplayJSONL`; `wanted` is `RepairIncompleteTail`.
  unfoldable pub replay_jsonl :
      Bool → ReplayDisk → (Bytes → ℕ → S → Result E S) → S → File → Replayed E S
  unfolding replay_end is_unreadable empty_replay
  replay_jsonl wanted disk handle s none = (files none none, empty_replay s, none)
  replay_jsonl wanted disk handle s (some file) =
      if is_unreadable disk
      then (files (some file) none, empty_replay s, some unread)
      else (let found = scan handle file s in replay_end wanted disk file found found.ending)
