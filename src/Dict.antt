-- ===== src/Dict.antt =====
-- A Go map with string keys, as an association list without repeated keys; the program sorts
-- whatever it reads by ranging over a map.
use subagent_broker.Common.{
  String, ◌≡◌, refl, Option, none, some, List, [], ◌∷◌, arith, ◌==◌, string_eq, if◌then◌else◌,
}

abbrev pub Dict {ℓ} : Type ℓ → Type ℓ
Dict V = List (String × V)

module _ {ℓ} {V : Type ℓ} where
  unfoldable pub lookup : String → Dict V → Option V
  lookup key [] = none
  lookup key ((other, value) ∷ rest) =
      let later = lookup key rest in if other == key then some value else later

  unfoldable pub insert : String → V → Dict V → Dict V
  insert key value [] = (key, value) ∷ []
  insert key value ((other, old) ∷ rest) =
      let later = insert key value rest in
      if other == key then (key, value) ∷ rest else (other, old) ∷ later

  pub lookup-insert :
      (key asked : String) (value : V) (map : Dict V)
      → lookup asked (insert key value map)
        ≡ (if key == asked then some value else lookup asked map)
  unfolding lookup insert
  lookup-insert key asked value [] = refl
  lookup-insert key asked value ((other, old) ∷ rest) =
      ground (arith, lookup-insert key asked value rest)
