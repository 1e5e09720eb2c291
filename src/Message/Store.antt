-- ===== src/Message/Store.antt =====
-- internal/message/store.go: the append-only journal of one run and its replay. The lines are the
-- decoded records.
use subagent_broker.Common.{
  String, Bool, true, false, Option, none, some, List, [], ◌∷◌, ◌++◌, ◌==◌, string_eq, nat_eq,
  if◌then◌else◌, Result, ok, err, ◌>>◌, fail_if, ◌||◌,
}
use subagent_broker.Dict.{Dict, lookup, insert}
use subagent_broker.Message.Json.{RawMessage}
use subagent_broker.Message.Kinds.{
  Message, message_type_eq, status_eq, delivery_mode_eq, no_type, no_status,
}
use subagent_broker.Message.Lifecycle.{
  LifecycleError, Validity, validate_lifecycle, validate_status_fields,
  validate_mode_first_assignment,
}

-- What `storage.AppendJSONL` did: it wrote the line, it wrote no complete line, or it wrote the line
-- and then failed (in `Sync` or `Close`).
pub data Disk : Type 0 where
  written refused unsynced : Disk

-- `marker` says that the file `<path>.append-disabled` exists; `journal` is what the file holds.
pub record Store : Type 0 where
  pub journal : List Message
  pub append_disabled : Bool
  pub disabled_reason : String
  pub marker : Bool

pub data StoreError : Type 0 where
  disabled : String → StoreError
  missing_fields : StoreError
  unencoded : StoreError
  io_failure : StoreError

unfoldable pub disable_append : String → Store → Store
disable_append reason s = record s {
  append_disabled = true;
  disabled_reason = if reason == "" then "message journal append disabled" else reason;
}

abbrev pub marker_reason : String
marker_reason = "message journal append disabled by corruption marker"

-- `MessageID == "" || RunID == "" || Type == "" || Status == ""`.
unfoldable pub lacks_identity : Message → Bool
lacks_identity m =
    m.message_id == "" || m.run_id == "" || m.type == no_type || m.status == no_status

-- `json.Marshal` fails at a raw message that is no JSON.
unfoldable pub is_malformed : RawMessage → Bool
is_malformed (RawMessage.malformed bytes) = true
is_malformed _ = false

unfoldable pub is_unencodable : Message → Bool
unfolding is_malformed
is_unencodable m = is_malformed m.payload || is_malformed m.resolution

append_line : Disk → Store → Message → Store × Option StoreError
append_line Disk.written s m = (record s { journal = s.journal ++ m ∷ [] }, none)
append_line Disk.refused s m = (s, some io_failure)
append_line Disk.unsynced s m = (record s { journal = s.journal ++ m ∷ [] }, some io_failure)

-- `Store.Append`.
unfoldable pub append : Disk → Store → Message → Store × Option StoreError
unfolding append_line is_unencodable
append disk s m =
    if s.append_disabled
    then (s, some (disabled s.disabled_reason))
    else if s.marker
    then (
      record s { append_disabled = true; disabled_reason = marker_reason },
      some (disabled marker_reason),
    )
    else if lacks_identity m
    then (s, some missing_fields)
    else if is_unencodable m
    then (s, some unencoded)
    else append_line disk s m

pub data ReplayError : Type 0 where
  incomplete_record : ReplayError
  corrupt : String → LifecycleError → ReplayError

abbrev as_corrupt : String → Validity → Result ReplayError (Unit {0})
as_corrupt id (ok u) = ok u
as_corrupt id (err e) = err (corrupt id e)

-- The first record of an id, and a later one.
check_first : Message → Validity
check_first m = do validate_status_fields m; validate_mode_first_assignment m

check_record : Option Message → Message → Validity
unfolding check_first
check_record none m = check_first m
check_record (some previous) m = validate_lifecycle previous m

-- `validateLine`.
unfoldable pub validate_line : Dict Message → Message → Result ReplayError (Unit {0})
unfolding check_record
validate_line previous m = do
  fail_if (lacks_identity m) incomplete_record
  as_corrupt m.message_id (check_record (lookup m.message_id previous) m)

-- `ReplayDetailed` over the lines: the messages read before the first bad line, and its error. The
-- maps `previousByID` and `messages` hold the same records whenever a line is validated.
unfoldable pub replay_from : Dict Message → List Message → Dict Message × Option ReplayError
replay_from index [] = (index, none)
replay_from index (m ∷ rest) = elim (validate_line index m) [
  | ok _ ↦ replay_from (insert m.message_id m index) rest
  | err e ↦ (index, some e)
]

unfoldable pub replay : List Message → Dict Message × Option ReplayError
unfolding replay_from
replay lines = replay_from [] lines
