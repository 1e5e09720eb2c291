-- ===== src/Common/Lists.antt =====
-- Lists measured by native numbers, Boolean membership, and predicates on every entry.
use Prim.Native.Nat.{ℕ, suc}
use mathlib.Core.Path.{◌≡◌, refl}
use mathlib.Core.Bool.{Bool, true, false, ◌||◌}
use mathlib.Core.List.{List, [], ◌∷◌, ◌++◌}
use subagent_broker.Common.Tests.{Eq, ◌==◌, if◌then◌else◌}

module _ {ℓ} {A : Type ℓ} where
  abbrev pub length : List A → ℕ
  length [] = 0
  length (x ∷ xs) = suc (length xs)

  -- `len(xs) == 0`.
  abbrev pub is_empty : List A → Bool
  is_empty [] = true
  is_empty (x ∷ xs) = false

  -- `if cond { list = append(list, x) }`.
  abbrev pub only_if : Bool → A → List A
  only_if true x = x ∷ []
  only_if false x = []

  -- A test that some entry passes.
  unfoldable pub any : (A → Bool) → List A → Bool
  any p [] = false
  any p (x ∷ xs) = p x || any p xs

  -- The entries that pass a test, in order.
  unfoldable pub keep : (A → Bool) → List A → List A
  keep p [] = []
  keep p (x ∷ xs) = let rest = keep p xs in if p x then x ∷ rest else rest

  -- A predicate by recursion, which computes to tuples.
  abbrev pub All {κ} : (A → Type κ) → List A → Type κ
  All P [] = Unit
  All P (x ∷ xs) = P x × All P xs

  -- A relation of every entry with every later one.
  abbrev pub Pairs {κ} : (A → A → Type κ) → List A → Type κ
  Pairs R [] = Unit
  Pairs R (x ∷ xs) = All (R x) xs × Pairs R xs

-- `slices.Contains`, and a set kept as a list.
module _ {ℓ} {A : Type ℓ} ⦃e : Eq A⦄ where
  unfoldable pub contains : List A → A → Bool
  contains [] a = false
  contains (x ∷ xs) a = a == x || contains xs a

-- Appending what each entry gives, in order.
module _ {ℓ κ} {A : Type ℓ} {B : Type κ} where
  unfoldable pub flat : (A → List B) → List A → List B
  flat f [] = []
  flat f (x ∷ xs) = f x ++ flat f xs

-- A predicate on every entry of the lists that are put together.
module _ {ℓ κ} {A : Type ℓ} (P : A → Type κ) where
  pub append-All : (xs ys : List A) → All P xs → All P ys → All P (xs ++ ys)
  append-All [] ys px py = py
  append-All (x ∷ xs) ys (p, px) py = (p, append-All xs ys px py)

  pub only_if-All : (b : Bool) (x : A) → P x → All P (only_if b x)
  only_if-All true x p = (p, tt)
  only_if-All false x p = tt

  pub flat-All {μ} :
      {B : Type μ} (f : B → List A) → ((y : B) → All P (f y)) → (ys : List B) → All P (flat f ys)
  unfolding flat
  flat-All f held [] = tt
  flat-All f held (y ∷ ys) = append-All (f y) (flat f ys) (held y) (flat-All f held ys)

pub All-map {ℓ κ μ} :
    {A : Type ℓ} (P : A → Type κ) (Q : A → Type μ)
    → ((x : A) → P x → Q x)
    → (xs : List A) → All P xs
    → All Q xs
All-map P Q f [] held = tt
All-map P Q f (x ∷ xs) (p, held) = (f x p, All-map P Q f xs held)

pub append-eq-nil {ℓ} : {B : Type ℓ} (xs ys : List B) → xs ++ ys ≡ [] → (xs ≡ []) × (ys ≡ [])
append-eq-nil [] ys h = (refl, h)
append-eq-nil (x ∷ xs) ys h = cc

pub flat-eq-nil {ℓ κ} :
    {A : Type ℓ} {B : Type κ} (f : A → List B) (xs : List A)
    → flat f xs ≡ []
    → All (λ x. f x ≡ []) xs
unfolding flat
flat-eq-nil f [] h = tt
flat-eq-nil f (x ∷ xs) h =
    let (here, later) = append-eq-nil (f x) (flat f xs) h in (here, flat-eq-nil f xs later)

pub only_if-eq-nil {ℓ} : {A : Type ℓ} (b : Bool) (x : A) → only_if b x ≡ [] → b ≡ false
only_if-eq-nil true x h = cc
only_if-eq-nil false x h = refl
