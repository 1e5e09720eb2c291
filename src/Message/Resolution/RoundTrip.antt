-- ===== src/Message/Resolution/RoundTrip.antt =====
-- internal/message/resolution.go: resolutions through the stored form and back.
use subagent_broker.Common.{
  String, ◌≡◌, refl, Bool, true, false, Option, none, some, ok, ◌↔◌, inl, inr, Result-cases, ◌>>=◌,
  Option-cases, arith, String-discrete, ℕ_discrete, key_matches,
}
use subagent_broker.Message.Json.{Json, Fields, RawMessage, lookup_field, is_absent}
use subagent_broker.Message.Kinds.{MessageType, is_decision_type}
use subagent_broker.Message.Resolution.Types.{
  ResolutionKind, AnswerPayload, DecisionPayload, Resolution, validate_resolution,
  validate_decision, new_answer_resolution, new_decision_resolution,
}
use subagent_broker.Message.Resolution.Codec.{
  zero_decision, zero_resolution, decode_decision_fields, decode_resolution_fields, encode_fields,
  encode_decision_fields, encode_answer, encode_decision, decode_decision, encode_resolution,
}
use subagent_broker.Message.Resolution.Decode.{
  decode_resolution, decode_typed, decode_legacy, decode_legacy_by_type, legacy_request,
  legacy_answer, legacy_decision, checked, canonical_json, normalize_json, resolutions_equal,
}

abbrev is_constant : ResolutionKind → Bool
is_constant (ResolutionKind.other s) = false
is_constant _ = true

-- Which of the keys that are written match which of the names that are read.
inner_keys :
    (key_matches "allowed" "allowed" ≡ true)
    × (key_matches "allowed" "reason" ≡ false)
    × (key_matches "allowed" "allow_public_interface_change" ≡ false)
    × (key_matches "reason" "allowed" ≡ false)
    × (key_matches "reason" "reason" ≡ true)
    × (key_matches "reason" "allow_public_interface_change" ≡ false)
    × (key_matches "allow_public_interface_change" "allowed" ≡ false)
    × (key_matches "allow_public_interface_change" "reason" ≡ false)
    × (key_matches "allow_public_interface_change" "allow_public_interface_change" ≡ true)
unfolding key_matches ℕ_discrete
inner_keys = (refl, refl, refl, refl, refl, refl, refl, refl, refl)

decode-encode_decision :
    (d : DecisionPayload) → decode_decision_fields (encode_decision_fields d) zero_decision ≡ some d
unfolding decode_decision_fields encode_decision_fields
decode-encode_decision d = ground (arith, inner_keys)

decode-encode_pointer :
    (d : DecisionPayload) (current : Option DecisionPayload)
    → current ≡ none
    → decode_decision (Json.object (encode_decision_fields d)) current ≡ some (some d)
unfolding decode_decision
decode-encode_pointer d current h = ground (arith, decode-encode_decision d)

decode-encode_rest :
    (k : ResolutionKind) (a : Option AnswerPayload) (d : Option DecisionPayload)
    → decode_resolution_fields
        (encode_answer a (encode_decision d Fields.end))
        (record { kind = k; answer = none; decision = none })
      ≡ some (record { kind = k; answer = a; decision = d })
unfolding decode_resolution_fields encode_answer encode_decision key_matches ℕ_discrete
decode-encode_rest k none none = refl
decode-encode_rest k (some a) none = refl
decode-encode_rest k none (some d) =
    rw (decode-encode_pointer d none refl, decode_resolution_fields)
decode-encode_rest k (some a) (some d) =
    rw (decode-encode_pointer d none refl, decode_resolution_fields)

-- Reading the written fields gives the resolution back.
decode-encode :
    (r : Resolution)
    → is_constant r.kind ≡ true
    → decode_resolution_fields (encode_fields r) zero_resolution ≡ some r
unfolding decode_resolution_fields encode_fields key_matches ℕ_discrete String-discrete
decode-encode r h = go r.kind r.answer r.decision h
  where
    go :
        (k : ResolutionKind) (a : Option AnswerPayload) (d : Option DecisionPayload)
        → is_constant k ≡ true
        → decode_resolution_fields
            (encode_fields (record { kind = k; answer = a; decision = d }))
            zero_resolution
          ≡ some (record { kind = k; answer = a; decision = d })
    go ResolutionKind.answer a d h = decode-encode_rest ResolutionKind.answer a d
    go ResolutionKind.decision a d h = decode-encode_rest ResolutionKind.decision a d
    go (ResolutionKind.other s) a d h = cc

has_kind : (r : Resolution) → (j : Json) × (lookup_field "kind" (encode_fields r) ≡ some j)
unfolding encode_fields lookup_field String-discrete encode_answer encode_decision
has_kind r = go r.answer r.decision
  where
    go :
        (a : Option AnswerPayload) (d : Option DecisionPayload)
        → (j : Json) × (lookup_field "kind"
              (encode_fields (record { kind = r.kind; answer = a; decision = d }))
            ≡ some j)
    go none none = (_, refl)
    go (some a) none = (_, refl)
    go none (some d) = (_, refl)
    go (some a) (some d) = (_, refl)

valid_kind :
    (t : MessageType) (r : Resolution) → validate_resolution t r ≡ ok tt → is_constant r.kind ≡ true
unfolding validate_resolution validate_decision
valid_kind MessageType.question r h = ground arith
valid_kind _ r h = ground arith

encoded_decodes :
    (t : MessageType) (r : Resolution)
    → validate_resolution t r ≡ ok tt
    → decode_resolution t (RawMessage.document (encode_resolution r)) ≡ ok r
unfolding encode_resolution decode_resolution decode_typed checked
encoded_decodes t r v =
    let (j, e) = has_kind r in
    rw (e, decode_resolution)
      (rw (decode-encode r (valid_kind t r v), decode_typed) (rw (v, checked)))

checked_valid :
    (t : MessageType) (r s : Resolution) → checked t r ≡ ok s → validate_resolution t s ≡ ok tt
unfolding checked
checked_valid t r s h = ground arith

legacy_request_valid :
    (t : MessageType) (reply : String) (verdict : Option DecisionPayload) (s : Resolution)
    → legacy_request t reply verdict ≡ ok s
    → validate_resolution t s ≡ ok tt
unfolding legacy_request
legacy_request_valid t reply none s h = ground arith
legacy_request_valid t reply (some d) s h = ground (
  arith,
  checked_valid t (new_decision_resolution d.allowed d.reason d.allow_public_interface_change) s,
)

legacy_valid :
    (t : MessageType) (reply : String) (verdict : Option DecisionPayload) (s : Resolution)
    → decode_legacy_by_type t reply verdict ≡ ok s
    → validate_resolution t s ≡ ok tt
unfolding decode_legacy_by_type
legacy_valid MessageType.question reply verdict s h =
    ground (arith, checked_valid MessageType.question (new_answer_resolution reply) s)
legacy_valid t reply verdict s h = ground (arith, legacy_request_valid t reply verdict s)

decode_legacy_valid :
    (t : MessageType) (fields : Fields) (s : Resolution)
    → decode_legacy t fields ≡ ok s
    → validate_resolution t s ≡ ok tt
unfolding decode_legacy
decode_legacy_valid t fields s h =
    elim (Result-cases (legacy_answer (lookup_field "answer" fields))) [
      | inr (x, e) ↦ cc (rw (e, decode_legacy) at h)
      | inl (reply, e) ↦ elim (Result-cases (legacy_decision (lookup_field "decision" fields))) [
        | inr (x, e') ↦ cc (rw (e', ◌>>=◌) at (rw (e, decode_legacy) at h))
        | inl (verdict, e') ↦
            legacy_valid t reply verdict s (rw (e', ◌>>=◌) at (rw (e, decode_legacy) at h))
      ]
    ]

typed_valid :
    (t : MessageType) (fields : Fields) (s : Resolution)
    → decode_typed t fields ≡ ok s
    → validate_resolution t s ≡ ok tt
unfolding decode_typed
typed_valid t fields s h = elim (Option-cases (decode_resolution_fields fields zero_resolution)) [
  | inl e ↦ cc (rw (e, decode_typed) at h)
  | inr (r, e) ↦ checked_valid t r s (rw (e, decode_typed) at h)
]

decision_type_of_valid :
    (t : MessageType) (r : Resolution) → validate_resolution t r ≡ ok tt → is_decision_type t ≡ true
unfolding validate_resolution
decision_type_of_valid MessageType.question r h = refl
decision_type_of_valid _ r h = ground arith

module _ (t : MessageType) where
  -- A valid resolution that is stored in the tagged form is read back as it was.
  pub decode-canonical :
      (r : Resolution) (raw : RawMessage)
      → canonical_json t r ≡ ok raw
      → decode_resolution t raw ≡ ok r
  unfolding canonical_json
  decode-canonical r raw h = ground (arith, encoded_decodes t r)

  -- What is decoded is valid for its type, in either form.
  pub decode_valid :
      (raw : RawMessage) (r : Resolution)
      → decode_resolution t raw ≡ ok r
      → validate_resolution t r ≡ ok tt
  unfolding decode_resolution
  decode_valid (RawMessage.document (Json.object fields)) r h =
      elim (Option-cases (lookup_field "kind" fields)) [
        | inl e ↦ decode_legacy_valid t fields r (rw (e, decode_resolution) at h)
        | inr (j, e) ↦ typed_valid t fields r (rw (e, decode_resolution) at h)
      ]
  decode_valid _ r h = cc

  normalized :
      (raw canonical : RawMessage)
      → normalize_json t raw ≡ ok canonical
      → (r : Resolution) × (decode_resolution t raw ≡ ok r) × (canonical_json t r ≡ ok canonical)
  unfolding normalize_json
  normalized raw canonical h = elim (Result-cases (decode_resolution t raw)) [
    | inr (x, e) ↦ cc (rw (e, normalize_json) at h)
    | inl (r, e) ↦ (r, e, rw (e, normalize_json) at h)
  ]

  decoded_normalizes :
      (raw : RawMessage) (r : Resolution)
      → decode_resolution t raw ≡ ok r
      → normalize_json t raw ≡ ok (RawMessage.document (encode_resolution r))
  unfolding normalize_json canonical_json
  decoded_normalizes raw r e = rw (e, normalize_json) (rw (decode_valid raw r e, canonical_json))

  -- Only a decision type has resolutions, and a normal form is never absent.
  pub normalize_decision :
      (raw canonical : RawMessage)
      → normalize_json t raw ≡ ok canonical
      → (is_decision_type t ≡ true) × (is_absent canonical ≡ false)
  unfolding canonical_json
  normalize_decision raw canonical h =
      let (r, e, c) = normalized raw canonical h in
      (decision_type_of_valid t r (decode_valid raw r e), ground arith)

  -- Normalising a stored resolution again changes nothing.
  pub normalize_idem :
      (raw canonical : RawMessage)
      → normalize_json t raw ≡ ok canonical
      → normalize_json t canonical ≡ ok canonical
  unfolding normalize_json
  normalize_idem raw canonical h =
      let (r, e, c) = normalized raw canonical h in
      rw (decode-canonical r canonical c, normalize_json) c

  -- Two stored resolutions compare as equal exactly when both decode, to one and the same valid
  -- resolution, whichever of the two forms each is in.
  pub resolutions_equal_iff :
      (left right : RawMessage)
      → (resolutions_equal t left right ≡ true) ↔ (
          (r : Resolution) × (decode_resolution t left ≡ ok r) × (decode_resolution t right ≡ ok r))
  unfolding resolutions_equal
  resolutions_equal_iff left right = (to, from)
    where
      to :
          resolutions_equal t left right ≡ true
          → (r : Resolution) × (decode_resolution t left ≡ ok r)
            × (decode_resolution t right ≡ ok r)
      to h = elim (Result-cases (normalize_json t left)) [
        | inr (x, e) ↦ cc (rw (e, resolutions_equal) at h)
        | inl (l, e) ↦ elim (Result-cases (normalize_json t right)) [
          | inr (x, e') ↦ ground arith
          | inl (r, e') ↦
              let same : r ≡ l = ground arith in
              let (a, left_is, canon) = normalized left l e in
              let (b, right_is, canon') = normalized right r e' in
              let decoded : decode_resolution t l ≡ ok a = decode-canonical a l canon in
              let decoded' : decode_resolution t r ≡ ok b = decode-canonical b r canon' in
              (a, left_is, cc)
        ]
      ]

      from :
          ((r : Resolution) × (decode_resolution t left ≡ ok r)
            × (decode_resolution t right ≡ ok r))
          → resolutions_equal t left right ≡ true
      from (r, l, l') = ground (arith, decoded_normalizes left r l, decoded_normalizes right r l')
