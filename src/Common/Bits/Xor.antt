-- ===== src/Common/Bits/Xor.antt =====
-- The laws of `^`: a commutative group where each value is its own inverse, and its bounds.
use writeonce.Common.{
  ℕ, zero, suc, ◌+◌, ◌*◌, ◌/◌, ◌%◌, ◌^◌, ◌<◌, bit_xor, ◌≡◌, refl, ap, ◌∙◌, sym, arith,
}
use writeonce.Common.Bits.{zero-bit_xor, bit_xor_lowest}
use native.Mathlib.Nat.{pow-suc}

-- A statement about three numbers holds if it passes from their halves to them.
halving :
    (P : ℕ → ℕ → ℕ → Type 0)
    → P 0 0 0
    → ((a b c : ℕ) → P (a / 2) (b / 2) (c / 2) → P a b c)
    → (a b c : ℕ) → P a b c
halving P start up a b c = go (a + b + c + 1) a b c (omega arith)
  where
    go : (bound a b c : ℕ) → a + b + c < bound → P a b c
    go zero a b c h = elim h [ ]
    go (suc bound) zero zero zero h = start
    go (suc bound) (suc a) b c h =
        up (suc a) b c (go bound (suc a / 2) (b / 2) (c / 2) (omega arith))
    go (suc bound) zero (suc b) c h =
        up 0 (suc b) c (go bound (0 / 2) (suc b / 2) (c / 2) (omega arith))
    go (suc bound) zero zero (suc c) h =
        up 0 0 (suc c) (go bound (0 / 2) (0 / 2) (suc c / 2) (omega arith))

pub bit_xor_half : (a b : ℕ) → bit_xor a b / 2 ≡ bit_xor (a / 2) (b / 2)
bit_xor_half a b = omega (arith, bit_xor_lowest a b)

pub bit_xor_parity : (a b : ℕ) → bit_xor a b % 2 ≡ (a + b) % 2
bit_xor_parity a b = omega (arith, bit_xor_lowest a b)

pub bit_xor_comm : (a b : ℕ) → bit_xor a b ≡ bit_xor b a
bit_xor_comm a b =
    halving (λ a b _. bit_xor a b ≡ bit_xor b a) refl
      (λ a b _ ih. omega (arith, ih, bit_xor_lowest a b, bit_xor_lowest b a)) a b 0

pub bit_xor_self : (a : ℕ) → bit_xor a a ≡ 0
bit_xor_self a =
    halving (λ a _ _. bit_xor a a ≡ 0) refl (λ a _ _ ih. omega (arith, ih, bit_xor_lowest a a)) a 0
      0

pub bit_xor-zero : (a : ℕ) → bit_xor a 0 ≡ a
bit_xor-zero a = bit_xor_comm a 0 ∙ zero-bit_xor a

pub bit_xor_assoc : (a b c : ℕ) → bit_xor (bit_xor a b) c ≡ bit_xor a (bit_xor b c)
bit_xor_assoc =
    halving (λ a b c. bit_xor (bit_xor a b) c ≡ bit_xor a (bit_xor b c)) refl
      λ a b c ih.
        let left = ap (λ t. bit_xor t (c / 2)) (bit_xor_half a b) in
        let right = ap (λ t. bit_xor (a / 2) t) (bit_xor_half b c) in
        omega (
          arith,
          left ∙ ih ∙ sym right,
          bit_xor_lowest (bit_xor a b) c,
          bit_xor_lowest a (bit_xor b c),
          bit_xor_parity a b,
          bit_xor_parity b c,
        )

pub bit_xor_cancel : (a b : ℕ) → bit_xor a (bit_xor a b) ≡ b
bit_xor_cancel a b =
    sym (bit_xor_assoc a a b) ∙ ap (λ t. bit_xor t b) (bit_xor_self a) ∙ zero-bit_xor b

pub bit_xor_injective : (a b c : ℕ) → bit_xor a b ≡ bit_xor a c → b ≡ c
bit_xor_injective a b c e = sym (bit_xor_cancel a b) ∙ ap (λ t. bit_xor a t) e ∙ bit_xor_cancel a c

pub bit_xor_injective_left : (a b c : ℕ) → bit_xor b a ≡ bit_xor c a → b ≡ c
bit_xor_injective_left a b c e = bit_xor_injective a b c (bit_xor_comm a b ∙ e ∙ bit_xor_comm c a)

pub bit_xor-lt : (k a b : ℕ) → a < 2 ^ k → b < 2 ^ k → bit_xor a b < 2 ^ k
bit_xor-lt zero zero zero ha hb = omega arith
bit_xor-lt zero (suc a) b ha hb = absurd (omega arith)
bit_xor-lt zero zero (suc b) ha hb = absurd (omega arith)
bit_xor-lt (suc k) a b ha hb = omega (
  arith,
  pow-suc 2 k,
  bit_xor_lowest a b,
  bit_xor-lt k (a / 2) (b / 2) (omega (arith, pow-suc 2 k)) (omega (arith, pow-suc 2 k)),
)

-- Bits above `2 ^ k` and bits below do not meet.
pub bit_xor_split : (k high low : ℕ) → low < 2 ^ k → bit_xor low (high * 2 ^ k) ≡ low + high * 2 ^ k
bit_xor_split zero high zero h = omega (arith, zero-bit_xor (high * 2 ^ 0))
bit_xor_split zero high (suc low) h = absurd (omega arith)
bit_xor_split (suc k) high low h =
    let double : high * 2 ^ suc k ≡ 2 * (high * 2 ^ k) =
      omega (arith, ap (λ (t : ℕ). high * t) (pow-suc 2 k)) in
    let half : high * 2 ^ suc k / 2 ≡ high * 2 ^ k = omega arith in
    omega (
      arith,
      ap (λ t. bit_xor (low / 2) t) half,
      bit_xor_lowest low (high * 2 ^ suc k),
      bit_xor_split k high (low / 2) (omega (arith, pow-suc 2 k)),
    )
