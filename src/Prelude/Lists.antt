-- ===== src/Prelude/Lists.antt =====
-- Lists with their lengths as native numbers.
use rsbanano_node.Prelude.{ℕ, ◌+◌, ◌≡◌, List, [], ◌∷◌, ◌++◌, arith}

module _ {ℓ} {A : Type ℓ} where
  unfoldable pub length : List A → ℕ
  length [] = 0
  length (x ∷ xs) = 1 + length xs

  pub length-++ : (xs ys : List A) → length (xs ++ ys) ≡ length xs + length ys
  unfolding length
  length-++ [] ys = omega arith
  length-++ (x ∷ xs) ys = omega (arith, length-++ xs ys)
