-- ===== src/Journal/Sample.antt =====
-- A codec for two events, for the tests of what takes encoding/json as a parameter.
use mathlib.Core.Path.{subst}
use subagent_broker.Common.{
  ◌≡◌, refl, sym, Option, none, some, [], ◌∷◌, String-discrete, ℕ_discrete, arith, ◌==◌, nat_eq,
  if◌then◌else◌,
}
use subagent_broker.Message.Json.{RawMessage-discrete}
use subagent_broker.Journal.Lines.{Bytes}
use subagent_broker.Journal.Split.{NoNewline}
use subagent_broker.Journal.Events.{Event}

unfoldable pub Event-discrete : Discrete Event
unfolding String-discrete ℕ_discrete RawMessage-discrete
Event-discrete = hlevel (String-discrete, ℕ_discrete, RawMessage-discrete)

encode_by : {first second e : Event} → Dec (e ≡ first) → Dec (e ≡ second) → Option Bytes
encode_by (yes _) _ = some (b'1' ∷ [])
encode_by (no _) (yes _) = some (b'2' ∷ [])
encode_by (no _) (no _) = none

unfoldable pub encode_among : Event → Event → Event → Option Bytes
unfolding Event-discrete encode_by
encode_among first second e = encode_by (Event-discrete e first) (Event-discrete e second)

unfoldable pub decode_among : Event → Event → Bytes → Option Event
decode_among first second (c ∷ []) =
    if c == b'1' then some first else if c == b'2' then some second else none
decode_among first second _ = none

Law : Event → Event → Event → Bytes → Type 0
Law first second e line = (decode_among first second line ≡ some e) × NoNewline line

read_first : (first second : Event) → Law first second first (b'1' ∷ [])
unfolding Law decode_among ℕ_discrete
read_first first second = (refl, (omega arith, tt))

read_second : (first second : Event) → Law first second second (b'2' ∷ [])
unfolding Law decode_among ℕ_discrete
read_second first second = (refl, (omega arith, tt))

some_line : (a b : Bytes) → ◌≡◌ {A = Option Bytes} (some a) (some b) → a ≡ b
some_line a b h = cc h

decoded_by :
    (first second e : Event) (line : Bytes) (d : Dec (e ≡ first)) (k : Dec (e ≡ second))
    → encode_by d k ≡ some line
    → Law first second e line
unfolding encode_by
decoded_by first second e line (yes same) k h =
    subst (λ (b : Bytes). Law first second e b) (some_line _ line h)
      (subst (λ (x : Event). Law first second x (b'1' ∷ [])) (sym same) (read_first first second))
decoded_by first second e line (no other) (yes same) h =
    subst (λ (b : Bytes). Law first second e b) (some_line _ line h)
      (subst (λ (x : Event). Law first second x (b'2' ∷ [])) (sym same) (read_second first second))
decoded_by first second e line (no other) (no neither) h = cc h

pub among_law :
    (first second e : Event) (line : Bytes)
    → encode_among first second e ≡ some line
    → (decode_among first second line ≡ some e) × NoNewline line
unfolding encode_among Law
among_law first second e line h =
    decoded_by first second e line (Event-discrete e first) (Event-discrete e second) h
