-- ===== src/Core/Amount.antt =====
-- core/src/amount.rs: a `u128`, kept as a number. `add` and `sub` are the operators of a release
-- build, which wrap.
use rsbanano_node.Prelude.{ℕ, ◌+◌, ◌-◌, ◌%◌, ◌<◌, ◌≤◌, ◌≡◌, arith}
use rsbanano_node.Prelude.Word.{u128_mod}

abbrev pub Amount : Type 0
Amount = ℕ

unfoldable pub add : Amount → Amount → Amount
add a b = (a + b) % u128_mod

unfoldable pub sub : Amount → Amount → Amount
sub a b = (a + u128_mod - b) % u128_mod

unfoldable pub wrapping_add : Amount → Amount → Amount
wrapping_add a b = (a + b) % u128_mod

unfoldable pub wrapping_sub : Amount → Amount → Amount
wrapping_sub a b = (a + u128_mod - b) % u128_mod

pub add_exact : (a b : Amount) → a + b < u128_mod → add a b ≡ a + b
unfolding add
add_exact a b h = omega arith

pub sub_exact : (a b : Amount) → b ≤ a → a < u128_mod → sub a b ≡ a - b
unfolding sub
sub_exact a b h k = omega arith

pub add-lt : (a b : Amount) → add a b < u128_mod
unfolding add
add-lt a b = omega arith

pub sub-lt : (a b : Amount) → sub a b < u128_mod
unfolding sub
sub-lt a b = omega arith

pub wrapping_add-lt : (a b : Amount) → wrapping_add a b < u128_mod
unfolding wrapping_add
wrapping_add-lt a b = omega arith
