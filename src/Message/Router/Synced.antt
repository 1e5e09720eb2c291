-- ===== src/Message/Router/Synced.antt =====
-- internal/message/router.go: the router's index beside the replay of its journal.
use subagent_broker.Common.{String, ◌≡◌, ◌≢◌, Bool, false, Option, none, some, [], ok, arith}
use subagent_broker.Dict.{Dict, lookup}
use subagent_broker.Message.Kinds.{Message}
use subagent_broker.Message.Lifecycle.{
  validate_lifecycle, validate_status_fields, validate_mode_first_assignment,
}
use subagent_broker.Message.Store.{Disk, append, lacks_identity, validate_line, replay}
use subagent_broker.Message.Router.Base.{Env, Router, persist}
use subagent_broker.Message.Router.Entries.{Entry, replay-Entries, replay_from-snoc}

abbrev pub IsSynced : Router → Type 0
IsSynced r = replay r.store.journal ≡ (r.index, none)

pub Entry-of :
    (r : Router) → IsSynced r → (k : String) (m : Message) → lookup k r.index ≡ some m → Entry k m
Entry-of r s = (replay-Entries r.store.journal s).at

-- A line that follows the rules is valid after the lines that the index stands for.
pub later_line :
    (index : Dict Message) (p m : Message)
    → lookup m.message_id index ≡ some p
    → lacks_identity m ≡ false
    → validate_lifecycle p m ≡ ok tt
    → validate_line index m ≡ ok tt
unfolding validate_line
later_line index p m e c h = ground arith

pub first_line :
    (index : Dict Message) (m : Message)
    → lookup m.message_id index ≡ none
    → lacks_identity m ≡ false
    → validate_status_fields m ≡ ok tt
    → validate_mode_first_assignment m ≡ ok tt
    → validate_line index m ≡ ok tt
unfolding validate_line
first_line index m e c h k = ground arith

-- Writing a valid line keeps the router synced, whether or not the write succeeds, unless the disk
-- keeps a line whose write it reports as failed.
pub persist-IsSynced :
    (stale : Option Message → Bool) (env : Env) (m : Message) (r : Router)
    → IsSynced r
    → env.disk ≢ Disk.unsynced
    → stale (lookup m.message_id r.index) ≡ false
    → validate_line r.index m ≡ ok tt
    → IsSynced (persist stale env m r).0
unfolding persist append replay
persist-IsSynced stale env m r s d f v =
    ground (arith, replay_from-snoc [] r.store.journal m {final = r.index} s v)
