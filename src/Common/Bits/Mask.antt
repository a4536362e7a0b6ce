-- ===== src/Common/Bits/Mask.antt =====
-- `&` with a mask of low ones is a remainder.
use writeonce.Common.{ℕ, zero, suc, ◌+◌, ◌*◌, ◌/◌, ◌%◌, ◌^◌, ◌≤◌, ◌<◌, bit_and, ◌≡◌, ap, arith}
use writeonce.Common.Bits.{zero-bit_and, bit_and_lowest}
use native.Mathlib.Nat.{pow-suc, one-le-pow}

bit_and-zero : (bound a : ℕ) → a < bound → bit_and a 0 ≡ 0
bit_and-zero zero a h = elim h [ ]
bit_and-zero (suc bound) zero h = zero-bit_and 0
bit_and-zero (suc bound) (suc a) h =
    omega (arith, bit_and_lowest (suc a) 0, bit_and-zero bound (suc a / 2) (omega arith))

-- The mask is `ones`, so that it may be written in any form.
pub bit_and_mask : (k ones a : ℕ) → ones + 1 ≡ 2 ^ k → bit_and a ones ≡ a % 2 ^ k
bit_and_mask zero zero a e = omega (arith, bit_and-zero (suc a) a (omega arith))
bit_and_mask zero (suc ones) a e = absurd (omega arith)
bit_and_mask (suc k) ones a e =
    let width = pow-suc 2 k in
    let pos = one-le-pow k 2 (omega arith) in
    omega (
      arith,
      bit_and_lowest a ones,
      bit_and_mask k (ones / 2) (a / 2) (omega arith),
      remainder (2 ^ k) a pos,
      width,
      ap (λ t. a % t) width,
    )
  where
    remainder : (m a : ℕ) → 1 ≤ m → a % (m * 2) ≡ a / 2 % m * 2 + a % 2
    remainder m a h = grind arith
