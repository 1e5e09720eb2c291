-- ===== src/Message/Resolution/Codec.antt =====
-- internal/message/resolution.go: encoding/json on the structs of a resolution.
use subagent_broker.Common.{
  String, Bool, false, Option, none, some, ◌==◌, string_eq, key_matches, if◌then◌else◌,
}
use subagent_broker.Message.Json.{Json, Fields}
use subagent_broker.Message.Resolution.Types.{
  ResolutionKind, AnswerPayload, DecisionPayload, Resolution,
}

-- `json.Unmarshal` into the structs: keys match a field's name up to case, a later key overrides,
-- `null` leaves a string or a Boolean as it is and clears a pointer, another type is an error.
decode_text : Json → String → Option String
decode_text (Json.text s) current = some s
decode_text Json.null current = some current
decode_text _ current = none

decode_bool : Json → Bool → Option Bool
decode_bool (Json.bool b) current = some b
decode_bool Json.null current = some current
decode_bool _ current = none

kind_of_text : String → ResolutionKind
kind_of_text s =
    if s == "answer"
    then ResolutionKind.answer
    else if s == "decision"
    then ResolutionKind.decision
    else ResolutionKind.other s

decode_kind : Json → ResolutionKind → Option ResolutionKind
unfolding kind_of_text
decode_kind (Json.text s) current = some (kind_of_text s)
decode_kind Json.null current = some current
decode_kind _ current = none

decode_answer_fields : Fields → AnswerPayload → Option AnswerPayload
unfolding decode_text
decode_answer_fields Fields.end a = some a
decode_answer_fields (Fields.field k v rest) a =
    elim (if key_matches k "text" then decode_text v a.text else some a.text) [
      | none ↦ none
      | some t ↦ decode_answer_fields rest (record { text = t })
    ]

unfoldable pub decode_decision_fields : Fields → DecisionPayload → Option DecisionPayload
unfolding decode_text decode_bool
decode_decision_fields Fields.end d = some d
decode_decision_fields (Fields.field k v rest) d =
    elim (if key_matches k "allowed" then decode_bool v d.allowed else some d.allowed) [
      | none ↦ none
      | some a ↦ elim (if key_matches k "reason" then decode_text v d.reason else some d.reason) [
        | none ↦ none
        | some r ↦
            elim (if key_matches k "allow_public_interface_change"
              then decode_bool v d.allow_public_interface_change
              else some d.allow_public_interface_change) [
                | none ↦ none
                | some p ↦
                    decode_decision_fields rest
                      (record { allowed = a; reason = r; allow_public_interface_change = p })
              ]
      ]
    ]

abbrev pub zero_answer : AnswerPayload
zero_answer = record { text = "" }

abbrev pub zero_decision : DecisionPayload
zero_decision = record { allowed = false; reason = ""; allow_public_interface_change = false }

abbrev value_or {ℓ} : {A : Type ℓ} → Option A → A → A
value_or none d = d
value_or (some a) d = a

decode_answer : Json → Option AnswerPayload → Option (Option AnswerPayload)
unfolding decode_answer_fields
decode_answer Json.null current = some none
decode_answer (Json.object fs) current =
    elim (decode_answer_fields fs (value_or current zero_answer)) [
      | none ↦ none
      | some a ↦ some (some a)
    ]
decode_answer _ current = none

unfoldable pub decode_decision : Json → Option DecisionPayload → Option (Option DecisionPayload)
unfolding decode_decision_fields
decode_decision Json.null current = some none
decode_decision (Json.object fs) current =
    elim (decode_decision_fields fs (value_or current zero_decision)) [
      | none ↦ none
      | some d ↦ some (some d)
    ]
decode_decision _ current = none

unfoldable pub decode_resolution_fields : Fields → Resolution → Option Resolution
unfolding decode_kind decode_answer decode_decision
decode_resolution_fields Fields.end r = some r
decode_resolution_fields (Fields.field k v rest) r =
    elim (if key_matches k "kind" then decode_kind v r.kind else some r.kind) [
      | none ↦ none
      | some kind ↦
          elim (if key_matches k "answer" then decode_answer v r.answer else some r.answer) [
            | none ↦ none
            | some a ↦
                elim (if key_matches k "decision"
                  then decode_decision v r.decision
                  else some r.decision) [
                    | none ↦ none
                    | some d ↦
                        decode_resolution_fields rest
                          (record { kind = kind; answer = a; decision = d })
                  ]
          ]
    ]

abbrev pub zero_resolution : Resolution
zero_resolution = record { kind = ResolutionKind.other ""; answer = none; decision = none }

kind_text : ResolutionKind → String
kind_text ResolutionKind.answer = "answer"
kind_text ResolutionKind.decision = "decision"
kind_text (ResolutionKind.other s) = s

-- `json.Marshal`, with the fields that `omitempty` leaves out.
unfoldable pub encode_answer : Option AnswerPayload → Fields → Fields
encode_answer none rest = rest
encode_answer (some a) rest =
    Fields.field "answer" (Json.object (Fields.field "text" (Json.text a.text) Fields.end)) rest

omit_text : String → String → Fields → Fields
omit_text k s rest = if s == "" then rest else Fields.field k (Json.text s) rest

omit_false : String → Bool → Fields → Fields
omit_false k b rest = if b then Fields.field k (Json.bool b) rest else rest

unfoldable pub encode_decision_fields : DecisionPayload → Fields
unfolding omit_text omit_false
encode_decision_fields d = Fields.field "allowed" (Json.bool d.allowed) (
    omit_text "reason" d.reason
      (omit_false "allow_public_interface_change" d.allow_public_interface_change Fields.end))

unfoldable pub encode_decision : Option DecisionPayload → Fields → Fields
unfolding encode_decision_fields
encode_decision none rest = rest
encode_decision (some d) rest =
    Fields.field "decision" (Json.object (encode_decision_fields d)) rest

unfoldable pub encode_fields : Resolution → Fields
unfolding kind_text encode_answer encode_decision
encode_fields r =
    Fields.field "kind" (Json.text (kind_text r.kind))
      (encode_answer r.answer (encode_decision r.decision Fields.end))

unfoldable pub encode_resolution : Resolution → Json
unfolding encode_fields
encode_resolution r = Json.object (encode_fields r)
