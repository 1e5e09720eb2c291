-- ===== src/Message/Json.antt =====
-- encoding/json as internal/message uses it. A `json.RawMessage` is kept as the document that it
-- spells: `json.Marshal` compacts every raw message that the journal holds, so two of them are
-- equal bytes when they are one document. Numbers are kept as their text.
use subagent_broker.Common.{
  String, Bool, true, false, Option, none, some, Eq, ◌==◌, string_eq, String-discrete,
  if◌then◌else◌,
}

mutual
  pub data Json : Type 0 where
    null : Json
    bool : Bool → Json
    number : String → Json
    text : String → Json
    array : Items → Json
    object : Fields → Json

  pub data Items : Type 0 where
    nil : Items
    item : Json → Items → Items

  pub data Fields : Type 0 where
    end : Fields
    field : String → Json → Fields → Fields

-- `nil` or no bytes; bytes that are no document; a document.
pub data RawMessage : Type 0 where
  empty : RawMessage
  malformed : String → RawMessage
  document : Json → RawMessage

unfoldable pub RawMessage-discrete : Discrete RawMessage
unfolding String-discrete
RawMessage-discrete = hlevel String-discrete

instance abbrev pub raw_eq : Eq RawMessage
raw_eq = record { eq? = RawMessage-discrete }

-- `len(raw) == 0`.
abbrev pub is_absent : RawMessage → Bool
is_absent RawMessage.empty = true
is_absent _ = false

-- `fields[key]` of a `map[string]json.RawMessage`: the last field of that very name.
unfoldable pub lookup_field : String → Fields → Option Json
lookup_field k Fields.end = none
lookup_field k (Fields.field j v rest) = elim (lookup_field k rest) [
  | some w ↦ some w
  | none ↦ if j == k then some v else none
]
