-- ===== src/State/Reach.antt =====
-- Paths through a transition validator: the statuses that are visited after the first.
use subagent_broker.Common.{
  ◌≡◌, ◌⊎◌, inl, inr, Bool, true, false, List, [], ◌∷◌, Eq, ◌==◌, contains, All, ok, arith,
  Bool-cases,
}
use subagent_broker.State.Transitions.{Checked}

pub data Reaches {A : Type 0} (check : A → A → Checked) : A → List A → A → Type 0 where
  here : {s : A} → Reaches check s [] s
  next :
      {s t u : A} {path : List A}
      → check s t ≡ ok tt
      → Reaches check t path u
      → Reaches check s (t ∷ path) u

module _ {A : Type 0} ⦃e : Eq A⦄ (check : A → A → Checked) where
  -- A status that no accepted step leaves is left by no path.
  pub Reaches-absorbed :
      (s : A)
      → ((v : A) → check s v ≡ ok tt → v ≡ s)
      → {start t : A} {path : List A} → start ≡ s
      → Reaches check start path t
      → (t ≡ s) × All (λ u. u ≡ s) path
  Reaches-absorbed s closed at here = (at, tt)
  Reaches-absorbed s closed at (next {t = v} ok_step rest) =
      let v_is : v ≡ s = closed v (rw (← at) ok_step) in
      let (last, visited) = Reaches-absorbed s closed v_is rest in (last, (v_is, visited))

  -- If a status of class `P` is entered only from `P` or through `gate`, a path from outside `P`
  -- into `P` visits `gate`.
  pub Reaches-gate :
      (gate : A) (inside : A → Bool)
      → ((u v : A) → check u v ≡ ok tt → inside v ≡ true → (inside u ≡ true) ⊎ ((u == gate) ≡ true))
      → {s t : A} {path : List A} → inside s ≡ false
      → Reaches check s path t
      → inside t ≡ true
      → ((s == gate) ≡ true) ⊎ (contains path gate ≡ true)
  Reaches-gate gate inside entry out here in_t = cc
  Reaches-gate gate inside entry {s = s} out (next {t = v} {path = path} ok_step rest) in_t =
      elim (Bool-cases (inside v)) [
        | inl in_v ↦ elim (entry s v ok_step in_v) [ inl was ↦ cc | inr at ↦ inl at ]
        | inr out_v ↦ elim (Reaches-gate gate inside entry out_v rest in_t) [
          | inl at ↦ inr (unfold contains in ground arith)
          | inr seen ↦ inr (unfold contains in ground arith)
        ]
      ]
