-- ===== src/Prelude/Bits.antt =====
-- The bitwise or of numbers with no bit in common.
use rsbanano_node.Prelude.{ℕ, zero, suc, ◌+◌, ◌/◌, ◌%◌, ◌≤◌, ◌<◌, ◌≡◌, ◌∙◌, arith}
use Prim.Native.Nat.{max, bit_or, digits, bit_or-bitwise}

-- The digits of the or, lowest first, with a count that covers them.
abbrev or_digits : ℕ → ℕ → ℕ → ℕ
or_digits n a b = digits (λ y. y) max n a b

or_none : (n a b : ℕ) → a ≤ n → b ≡ 0 → or_digits n a b ≡ a + b
or_none zero a b h low = omega (arith, h, low)
or_none (suc n) zero b h low = omega arith
or_none (suc n) (suc a) b h low =
    omega (arith, or_none n (suc a / 2) (b / 2) (omega arith) (omega arith))

or_one : (n a b : ℕ) → a ≤ n → a % 2 ≡ 0 → b < 2 → or_digits n a b ≡ a + b
or_one zero a b h even low = omega (arith, h)
or_one (suc n) zero b h even low = omega arith
or_one (suc n) (suc a) b h even low =
    omega (arith, or_none n (suc a / 2) (b / 2) (omega arith) (omega arith))

or_two : (n a b : ℕ) → a ≤ n → a % 4 ≡ 0 → b < 4 → or_digits n a b ≡ a + b
or_two zero a b h even low = omega (arith, h)
or_two (suc n) zero b h even low = omega arith
or_two (suc n) (suc a) b h even low =
    omega (arith, or_one n (suc a / 2) (b / 2) (omega arith) (omega arith) (omega arith))

or_three : (n a b : ℕ) → a ≤ n → a % 8 ≡ 0 → b < 8 → or_digits n a b ≡ a + b
or_three zero a b h even low = omega (arith, h)
or_three (suc n) zero b h even low = omega arith
or_three (suc n) (suc a) b h even low =
    omega (arith, or_two n (suc a / 2) (b / 2) (omega arith) (omega arith) (omega arith))

or_four : (n a b : ℕ) → a ≤ n → a % 16 ≡ 0 → b < 16 → or_digits n a b ≡ a + b
or_four zero a b h even low = omega (arith, h)
or_four (suc n) zero b h even low = omega arith
or_four (suc n) (suc a) b h even low =
    omega (arith, or_three n (suc a / 2) (b / 2) (omega arith) (omega arith) (omega arith))

-- A number without its four low bits, and one of four bits.
pub bit_or_nibble : (a b : ℕ) → a % 16 ≡ 0 → b < 16 → bit_or a b ≡ a + b
bit_or_nibble a b even low = bit_or-bitwise a b ∙ or_four a a b (omega arith) even low
