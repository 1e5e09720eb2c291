-- ===== src/Message/Resolution/Examples.antt =====
-- Tests and instances for internal/message/resolution.go.
use subagent_broker.Common.{◌≡◌, ◌↔◌, refl, true, ok, String-discrete, ℕ_discrete, is_blank}
use subagent_broker.Message.Json.{Json, Fields, RawMessage, lookup_field}
use subagent_broker.Message.Kinds.{MessageType}
use subagent_broker.Message.Resolution.Types.{
  Resolution, ResolutionKind-discrete, validate_resolution, new_answer_resolution,
}
use subagent_broker.Message.Resolution.Codec.{encode_resolution}
use subagent_broker.Message.Resolution.Decode.{
  checked, decode_legacy, legacy_answer, legacy_decision, decode_legacy_by_type, decode_resolution,
  canonical_json, normalize_json, resolutions_equal,
}
use subagent_broker.Message.Resolution.RoundTrip.{decode-canonical, resolutions_equal_iff}

abbrev pub written_reply : RawMessage
written_reply = RawMessage.document (encode_resolution (new_answer_resolution "the second design"))

reply_valid :
    canonical_json MessageType.question (new_answer_resolution "the second design")
    ≡ ok written_reply
unfolding canonical_json validate_resolution new_answer_resolution ResolutionKind-discrete is_blank
    ℕ_discrete
reply_valid = refl

abbrev legacy_reply : RawMessage
legacy_reply =
    RawMessage.document
      (Json.object (Fields.field "answer" (Json.text "the second design") Fields.end))

legacy_decodes :
    decode_resolution MessageType.question legacy_reply
    ≡ ok (new_answer_resolution "the second design")
unfolding decode_resolution lookup_field String-discrete decode_legacy legacy_answer legacy_decision
    decode_legacy_by_type is_blank ℕ_discrete checked validate_resolution new_answer_resolution
    ResolutionKind-discrete
legacy_decodes = refl

legacy_normalizes : normalize_json MessageType.question legacy_reply ≡ ok written_reply
unfolding normalize_json decode_resolution lookup_field String-discrete decode_legacy legacy_answer
    legacy_decision decode_legacy_by_type is_blank ℕ_discrete checked validate_resolution
    new_answer_resolution ResolutionKind-discrete canonical_json
legacy_normalizes = refl

decode-canonical_example :
    decode_resolution MessageType.question written_reply
    ≡ ok (new_answer_resolution "the second design")
decode-canonical_example =
    decode-canonical MessageType.question (new_answer_resolution "the second design") written_reply
      reply_valid

resolutions_equal_iff_example :
    (resolutions_equal MessageType.question legacy_reply written_reply ≡ true) ↔ (
      (r : Resolution) × (decode_resolution MessageType.question legacy_reply ≡ ok r)
      × (decode_resolution MessageType.question written_reply ≡ ok r))
resolutions_equal_iff_example =
    resolutions_equal_iff MessageType.question legacy_reply written_reply
