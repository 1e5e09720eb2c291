-- ===== src/Common/Tests.antt =====
-- Boolean tests: `==` for every type with decidable equality, `<` and `<=` on numbers, and Go's
-- `if`.
use Prim.Native.Nat.{ℕ, compare, Ordering}
use Prim.Native.String.{String}
use mathlib.Core.Path.{◌≡◌, refl}
use mathlib.Core.Logic.{◌⊎◌, inl, inr}
use mathlib.Core.Bool.{Bool, true, false}
use mathlib.Core.Option.{Option, none, some}
use native.Mathlib.Decide.{ℕ_discrete}
use text.Mathlib.Text.{◌==◌ as str_eq}
use text.Mathlib.TextEquality.{eq_iff}

infix 1 if◌then◌else◌
abbrev pub if◌then◌else◌ {ℓ} : {A : Type ℓ} → Bool → A → A → A
if true then x else y = x
if false then x else y = y

abbrev pub ltb : ℕ → ℕ → Bool
ltb a b = elim (compare a b) [ Ordering.lt ↦ true | _ ↦ false ]

abbrev pub leb : ℕ → ℕ → Bool
leb a b = elim (compare a b) [ Ordering.gt ↦ false | _ ↦ true ]

abbrev pub is_yes {ℓ} : {P : Type ℓ} → Dec P → Bool
is_yes (yes _) = true
is_yes (no _) = false

pub record Eq {ℓ} (A : Type ℓ) : Type ℓ where
  pub eq? : Discrete A

-- Go's `==`; the tactics read it as a split on the decision.
infix 50 ◌==◌
abbrev pub ◌==◌ {ℓ} : {A : Type ℓ} ⦃e : Eq A⦄ → A → A → Bool
◌==◌ ⦃e⦄ a b = is_yes (e.eq? a b)

text_decision : (s t : String) (b : Bool) → str_eq s t ≡ b → Dec (s ≡ t)
text_decision s t true h = yes ((eq_iff s t).0 h)
text_decision s t false h = no (λ e. cc ((eq_iff s t).1 e))

unfoldable pub String-discrete : Discrete String
unfolding text_decision
String-discrete s t = text_decision s t (str_eq s t) refl

instance abbrev pub string_eq : Eq String
string_eq = record { eq? = String-discrete }

instance abbrev pub nat_eq : Eq ℕ
nat_eq = record { eq? = ℕ_discrete }

-- To split on a computed value and keep the equation.
pub Bool-cases : (b : Bool) → (b ≡ true) ⊎ (b ≡ false)
Bool-cases true = inl refl
Bool-cases false = inr refl

pub Option-cases {ℓ} : {A : Type ℓ} (o : Option A) → (o ≡ none) ⊎ ((a : A) × (o ≡ some a))
Option-cases none = inl refl
Option-cases (some a) = inr (a, refl)
