-- ===== src/Common/Sort.antt =====
-- `sort.Slice` and `sort.Strings`, as an insertion sort; the program sorts by total orders, for
-- which every sorting algorithm has the one result.
use Prim.Native.Nat.{Ordering}
use Prim.Native.String.{String, compare}
use mathlib.Core.Bool.{Bool, true, false}
use mathlib.Core.Logic.{inl, inr}
use mathlib.Core.List.{List, [], ◌∷◌, Perm}
use mathlib.Core.List.Perm
use subagent_broker.Common.Tests.{if◌then◌else◌, Bool-cases}
use subagent_broker.Common.Lists.{All, Pairs}

-- `a < b` on strings.
abbrev pub text_lt : String → String → Bool
text_lt a b = elim (compare a b) [ Ordering.lt ↦ true | _ ↦ false ]

module _ {ℓ} {A : Type ℓ} (less : A → A → Bool) where
  unfoldable pub insert_sorted : A → List A → List A
  insert_sorted x [] = x ∷ []
  insert_sorted x (y ∷ ys) =
      let later = y ∷ insert_sorted x ys in if less y x then later else x ∷ y ∷ ys

  unfoldable pub sort : List A → List A
  unfolding insert_sorted
  sort [] = []
  sort (x ∷ xs) = insert_sorted x (sort xs)

  insert_sorted-perm : (x : A) (ys : List A) → Perm (insert_sorted x ys) (x ∷ ys)
  unfolding insert_sorted
  insert_sorted-perm x [] = Perm.refl (x ∷ [])
  insert_sorted-perm x (y ∷ ys) = elim (Bool-cases (less y x)) [
    | inl e ↦
        rw (e, insert_sorted)
          (Perm.trans (Perm.cons y (insert_sorted-perm x ys)) (Perm.swap x y ys))
    | inr e ↦ rw (e, insert_sorted) (Perm.refl (x ∷ y ∷ ys))
  ]

  -- Sorting keeps every entry, as often.
  pub sort-perm : (xs : List A) → Perm (sort xs) xs
  unfolding sort
  sort-perm [] = Perm.refl []
  sort-perm (x ∷ xs) = Perm.trans (insert_sorted-perm x (sort xs)) (Perm.cons x (sort-perm xs))

  module _ {κ} (P : A → Type κ) where
    All-insert_sorted : (x : A) (ys : List A) → All P (insert_sorted x ys) → P x × All P ys
    unfolding insert_sorted
    All-insert_sorted x [] held = held
    All-insert_sorted x (y ∷ ys) held = go (less y x) (All-insert_sorted x ys) held
      where
        go :
            (b : Bool)
            → (All P (insert_sorted x ys) → P x × All P ys)
            → All P (if b then y ∷ insert_sorted x ys else x ∷ y ∷ ys)
            → P x × All P (y ∷ ys)
        go true later (py, rest) = let (px, others) = later rest in (px, (py, others))
        go false later all_held = all_held

    insert_sorted-All : (x : A) (ys : List A) → P x → All P ys → All P (insert_sorted x ys)
    unfolding insert_sorted
    insert_sorted-All x [] px held = (px, held)
    insert_sorted-All x (y ∷ ys) px (py, held) = elim (Bool-cases (less y x)) [
      | inl e ↦ rw e (py, insert_sorted-All x ys px held)
      | inr e ↦ rw e (px, (py, held))
    ]

    -- What every entry has, every entry of the sorted list has.
    pub sort-All : (xs : List A) → All P xs → All P (sort xs)
    unfolding sort
    sort-All [] held = held
    sort-All (x ∷ xs) (px, held) = insert_sorted-All x (sort xs) px (sort-All xs held)

    -- What every entry of the sorted list has, every entry has.
    pub All-sort : (xs : List A) → All P (sort xs) → All P xs
    unfolding sort
    All-sort [] held = held
    All-sort (x ∷ xs) held =
        let (px, rest) = All-insert_sorted x (sort xs) held in (px, All-sort xs rest)

  module _ {κ} (R : A → A → Type κ) (swapped : (x y : A) → R x y → R y x) where
    Pairs-insert_sorted :
        (x : A) (ys : List A) → Pairs R (insert_sorted x ys) → All (R x) ys × Pairs R ys
    unfolding insert_sorted
    Pairs-insert_sorted x [] held = held
    Pairs-insert_sorted x (y ∷ ys) held = go (less y x) (Pairs-insert_sorted x ys) held
      where
        go :
            (b : Bool)
            → (Pairs R (insert_sorted x ys) → All (R x) ys × Pairs R ys)
            → Pairs R (if b then y ∷ insert_sorted x ys else x ∷ y ∷ ys)
            → All (R x) (y ∷ ys) × Pairs R (y ∷ ys)
        go true later (of_y, rest) =
            let (of_x, others) = later rest in
            let (yx, y_others) = All-insert_sorted (R y) x ys of_y in
            ((swapped y x yx, of_x), (y_others, others))
        go false later all_held = all_held

    -- A symmetric relation of the pairs of the sorted list is one of the pairs of the list.
    pub Pairs-sort : (xs : List A) → Pairs R (sort xs) → Pairs R xs
    unfolding sort
    Pairs-sort [] held = held
    Pairs-sort (x ∷ xs) held =
        let (of_x, rest) = Pairs-insert_sorted x (sort xs) held in
        (All-sort (R x) xs of_x, Pairs-sort xs rest)
