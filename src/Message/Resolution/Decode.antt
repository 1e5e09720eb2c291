-- ===== src/Message/Resolution/Decode.antt =====
-- internal/message/resolution.go: the decoding of a stored resolution, in the tagged form and in the
-- older untagged one, and the comparison of two of them.
use subagent_broker.Common.{
  String, Bool, false, Option, none, some, ◌==◌, is_blank, if◌then◌else◌, Result, ok, err, ◌>>=◌,
  ◌>>◌, fail_if, ◌&&◌, ◌||◌, not,
}
use subagent_broker.Message.Json.{Json, Fields, RawMessage, lookup_field, raw_eq}
use subagent_broker.Message.Kinds.{MessageType}
use subagent_broker.Message.Resolution.Types.{
  DecisionPayload, Resolution, ResolutionError, answer_blank, decision_missing, not_resolvable,
  required, not_an_object, undecodable, legacy_ambiguous, needs_reconciliation,
  new_answer_resolution, new_decision_resolution, validate_resolution,
}
use subagent_broker.Message.Resolution.Codec.{
  zero_decision, zero_resolution, decode_decision_fields, decode_resolution_fields,
  encode_resolution,
}

-- `legacyAnswer`: a missing or null answer reads as "".
unfoldable pub legacy_answer : Option Json → Result ResolutionError String
legacy_answer none = ok ""
legacy_answer (some Json.null) = ok ""
legacy_answer (some (Json.text s)) = ok s
legacy_answer (some _) = err undecodable

-- `legacyDecision`: the decision if one is present.
unfoldable pub legacy_decision : Option Json → Result ResolutionError (Option DecisionPayload)
unfolding decode_decision_fields
legacy_decision none = ok none
legacy_decision (some Json.null) = ok none
legacy_decision (some (Json.object fs)) = elim (decode_decision_fields fs zero_decision) [
  | none ↦ err undecodable
  | some d ↦ ok (some d)
]
legacy_decision (some _) = err undecodable

is_meaningful : Option DecisionPayload → Bool
is_meaningful none = false
is_meaningful (some d) = d.allowed || not (is_blank d.reason) || d.allow_public_interface_change

unfoldable pub checked : MessageType → Resolution → Result ResolutionError Resolution
checked t r = do validate_resolution t r; ok r

unfoldable pub legacy_request :
    MessageType → String → Option DecisionPayload → Result ResolutionError Resolution
unfolding is_meaningful
legacy_request t reply verdict = do
  fail_if (not (is_blank reply) && not (is_meaningful verdict)) (needs_reconciliation t)
  fail_if (not (is_blank reply)) (legacy_ambiguous t)
  elim verdict [
    | none ↦ err (decision_missing t)
    | some d ↦
        checked t (new_decision_resolution d.allowed d.reason d.allow_public_interface_change)
  ]

unfoldable pub decode_legacy_by_type :
    MessageType → String → Option DecisionPayload → Result ResolutionError Resolution
unfolding is_meaningful
decode_legacy_by_type MessageType.question reply verdict =
    if not (is_blank reply)
    then (do
      fail_if (is_meaningful verdict) (legacy_ambiguous MessageType.question)
      checked MessageType.question (new_answer_resolution reply))
    else err answer_blank
decode_legacy_by_type MessageType.permission_request reply verdict =
    legacy_request MessageType.permission_request reply verdict
decode_legacy_by_type MessageType.scope_expansion_request reply verdict =
    legacy_request MessageType.scope_expansion_request reply verdict
decode_legacy_by_type t reply verdict = err (not_resolvable t)

unfoldable pub decode_legacy : MessageType → Fields → Result ResolutionError Resolution
decode_legacy t fields = do
  reply ← legacy_answer (lookup_field "answer" fields)
  verdict ← legacy_decision (lookup_field "decision" fields)
  decode_legacy_by_type t reply verdict

unfoldable pub decode_typed : MessageType → Fields → Result ResolutionError Resolution
unfolding decode_resolution_fields
decode_typed t fields = elim (decode_resolution_fields fields zero_resolution) [
  | none ↦ err undecodable
  | some r ↦ checked t r
]

-- `DecodeResolutionForType`.
unfoldable pub decode_resolution : MessageType → RawMessage → Result ResolutionError Resolution
decode_resolution t RawMessage.empty = err required
decode_resolution t (RawMessage.malformed bytes) = err undecodable
decode_resolution t (RawMessage.document Json.null) = err not_an_object
decode_resolution t (RawMessage.document (Json.object fields)) = elim (lookup_field "kind" fields) [
  | some _ ↦ decode_typed t fields
  | none ↦ decode_legacy t fields
]
decode_resolution t (RawMessage.document _) = err undecodable

-- `CanonicalResolutionJSON`.
unfoldable pub canonical_json : MessageType → Resolution → Result ResolutionError RawMessage
canonical_json t r = do validate_resolution t r; ok (RawMessage.document (encode_resolution r))

-- `normalizeResolutionJSON`.
unfoldable pub normalize_json : MessageType → RawMessage → Result ResolutionError RawMessage
normalize_json t raw = do r ← decode_resolution t raw; canonical_json t r

-- `ResolutionsEqualForType`.
unfoldable pub resolutions_equal : MessageType → RawMessage → RawMessage → Bool
resolutions_equal t left right = elim (normalize_json t left) [
  | err e ↦ false
  | ok l ↦ elim (normalize_json t right) [ err e ↦ false | ok r ↦ l == r ]
]
