-- ===== src/Common/Bits.antt =====
-- `^` and `&` of C at variables: one equation for the lowest bit, from the digit recursion that
-- the native operations stand for.
pub mod Xor
pub mod Mask
use Prim.Native.Nat.{digits, differ, bit_and-bitwise, bit_xor-bitwise, min, bit_and, bit_xor}
use writeonce.Common.{ℕ, zero, suc, ◌+◌, ◌*◌, ◌/◌, ◌%◌, ◌≤◌, ◌<◌, ◌≡◌, refl, ap, ◌∙◌, sym, arith}

module _ (tail : ℕ → ℕ) (op : ℕ → ℕ → ℕ) where
  -- Any fuel from the first argument on gives the same digits.
  digits-enough : (a fuel b : ℕ) → a ≤ fuel → digits tail op fuel a b ≡ digits tail op a a b
  digits-enough a fuel b h = below (suc a) a fuel b (omega arith) h
    where
      below :
          (bound a fuel b : ℕ)
          → a < bound
          → a ≤ fuel
          → digits tail op fuel a b ≡ digits tail op a a b
      below zero a fuel b lt h = elim lt [ ]
      below (suc bound) zero zero b lt h = refl
      below (suc bound) zero (suc fuel) b lt h = refl
      below (suc bound) (suc a) zero b lt h = elim h [ ]
      below (suc bound) (suc a) (suc fuel) b lt h =
          let half = suc a / 2 in
          let here = below bound half fuel (b / 2) (omega arith) (omega arith) in
          let there = below bound half a (b / 2) (omega arith) (omega arith) in
          rw (here ∙ sym there)

  digits-lowest :
      (a b : ℕ)
      → digits tail op (suc a) (suc a) b
        ≡ digits tail op (suc a / 2) (suc a / 2) (b / 2) * 2 + op (suc a % 2) (b % 2)
  digits-lowest a b = omega (arith, digits-enough (suc a / 2) a (b / 2) (omega arith))

differ_bits : (x y : ℕ) → x < 2 → y < 2 → differ x y ≡ (x + y) % 2
differ_bits zero y hx hy = omega arith
differ_bits (suc zero) zero hx hy = refl
differ_bits (suc zero) (suc zero) hx hy = refl
differ_bits (suc zero) (suc (suc y)) hx hy = absurd (omega arith)
differ_bits (suc (suc x)) y hx hy = absurd (omega arith)

pub zero-bit_xor : (b : ℕ) → bit_xor 0 b ≡ b
zero-bit_xor b = bit_xor-bitwise 0 b

pub zero-bit_and : (b : ℕ) → bit_and 0 b ≡ 0
zero-bit_and b = bit_and-bitwise 0 b

pub bit_xor_lowest : (a b : ℕ) → bit_xor a b ≡ bit_xor (a / 2) (b / 2) * 2 + (a + b) % 2
bit_xor_lowest zero b = omega (arith, zero-bit_xor b, zero-bit_xor (b / 2))
bit_xor_lowest (suc a) b = omega (
  arith,
  bit_xor-bitwise (suc a) b,
  bit_xor-bitwise (suc a / 2) (b / 2),
  digits-lowest (λ y. y) differ a b,
  differ_bits (suc a % 2) (b % 2) (omega arith) (omega arith),
)

pub bit_and_lowest : (a b : ℕ) → bit_and a b ≡ bit_and (a / 2) (b / 2) * 2 + min (a % 2) (b % 2)
bit_and_lowest zero b = omega (arith, zero-bit_and b, zero-bit_and (b / 2))
bit_and_lowest (suc a) b = omega (
  arith,
  bit_and-bitwise (suc a) b,
  bit_and-bitwise (suc a / 2) (b / 2),
  digits-lowest (λ y. 0) min a b,
)
