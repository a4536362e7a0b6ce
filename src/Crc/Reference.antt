-- ===== src/Crc/Reference.antt =====
-- The table-driven `crc32` computes the checksum bit by bit, as its polynomial defines it.
use writeonce.Common.{
  ℕ, zero, suc, ◌+◌, ◌*◌, ◌/◌, ◌%◌, ◌^◌, ◌<◌, ◌≡◌, refl, sym, ap, ap₂, ◌∙◌, List, [], ◌∷◌, get_or,
  All, bit_and, bit_xor, ◌==◌, if◌then◌else◌, arith,
}
use writeonce.Common.Bits.Xor.{
  bit_xor_half, bit_xor_parity, bit_xor-zero, bit_xor_assoc, bit_xor_split,
}
use writeonce.Common.Bits.Mask.{bit_and_mask}
use writeonce.Crc.{
  poly, shift_out, shift_rounds, entries_from, crc_table, crc_byte, crc_loop, crc32,
}
use writeonce.Wire.Integers.{IsByte}
use native.Mathlib.Nat.{pow-suc, pow-succ', div-div-eq-div-mul}

-- The definition of the checksum: one shift for each bit, no table.
unfoldable pub bitwise_loop : ℕ → List ℕ → ℕ
unfolding shift_rounds
bitwise_loop c [] = c
bitwise_loop c (b ∷ bs) = bitwise_loop (shift_rounds 8 (bit_xor c b)) bs

unfoldable pub bitwise_crc : List ℕ → ℕ
unfolding bitwise_loop
bitwise_crc bs = bit_xor (bitwise_loop 0xFFFFFFFF bs) 0xFFFFFFFF

bit_and-one : (c : ℕ) → bit_and c 1 ≡ c % 2
bit_and-one c = omega (arith, bit_and_mask 1 1 c refl)

pub shift_out_lem : (c : ℕ) → shift_out c ≡ (if c % 2 == 0 then c / 2 else bit_xor poly (c / 2))
unfolding shift_out
shift_out_lem c = rw (bit_and-one c)

-- Bits above the lowest pass through a round.
shift_out-bit_xor : (x y : ℕ) → shift_out (bit_xor x (y * 2)) ≡ bit_xor (shift_out x) y
shift_out-bit_xor x y =
    let parity : bit_xor x (y * 2) % 2 ≡ x % 2 = omega (arith, bit_xor_parity x (y * 2)) in
    let twice : y * 2 / 2 ≡ y = omega arith in
    let half : bit_xor x (y * 2) / 2 ≡ bit_xor (x / 2) y =
      bit_xor_half x (y * 2) ∙ ap (λ t. bit_xor (x / 2) t) twice in
    rw (shift_out_lem (bit_xor x (y * 2)), shift_out_lem x, parity, half)
      (ground (arith, bit_xor_assoc poly (x / 2) y))

shift_rounds-bit_xor :
    (k x y : ℕ) → shift_rounds k (bit_xor x (y * 2 ^ k)) ≡ bit_xor (shift_rounds k x) y
unfolding shift_rounds
shift_rounds-bit_xor zero x y = ap (λ t. bit_xor x t) (omega arith)
shift_rounds-bit_xor (suc k) x y =
    let split : y * 2 ^ suc k ≡ y * 2 ^ k * 2 =
      omega (arith, ap (λ (t : ℕ). y * t) (pow-suc 2 k)) in
    rw (split, shift_out-bit_xor x (y * 2 ^ k)) (shift_rounds-bit_xor k (shift_out x) y)

get_or-entries_from : (n i j : ℕ) → j < n → get_or (entries_from n i) j 0 ≡ shift_rounds 8 (i + j)
unfolding entries_from
get_or-entries_from zero i j h = elim h [ ]
get_or-entries_from (suc n) i zero h = ap (shift_rounds 8) (omega arith)
get_or-entries_from (suc n) i (suc j) h =
    get_or-entries_from n (i + 1) j (omega arith) ∙ ap (shift_rounds 8) (omega arith)

table_entry : (j : ℕ) → j < 256 → get_or crc_table j 0 ≡ shift_rounds 8 j
unfolding crc_table
table_entry j h = get_or-entries_from 256 0 j h ∙ ap (shift_rounds 8) (omega arith)

-- A shift by one more place.
higher : (k x : ℕ) → x / 2 ^ suc k ≡ x / 2 / 2 ^ k
higher k x = ap (λ t. x / t) (pow-succ' 2 k) ∙ sym (div-div-eq-div-mul x 2 (2 ^ k))

byte_high : (c b : ℕ) → b < 2 ^ 8 → bit_xor c b / 2 ^ 8 ≡ c / 2 ^ 8
byte_high c b h = halve 8 c b h
  where
    halve : (k c b : ℕ) → b < 2 ^ k → bit_xor c b / 2 ^ k ≡ c / 2 ^ k
    halve zero c zero h = ap (λ t. t / 2 ^ 0) (bit_xor-zero c)
    halve zero c (suc b) h = absurd (omega arith)
    halve (suc k) c b h =
        higher k (bit_xor c b)
        ∙ ap (λ t. t / 2 ^ k) (bit_xor_half c b)
        ∙ halve k (c / 2) (b / 2) (omega (arith, pow-suc 2 k))
        ∙ sym (higher k c)

-- One byte through the table is eight rounds.
pub crc_byte-rounds : (c b : ℕ) → IsByte b → crc_byte c b ≡ shift_rounds 8 (bit_xor c b)
unfolding crc_byte
crc_byte-rounds c b h =
    let x = bit_xor c b in
    let low : x % 2 ^ 8 < 2 ^ 8 = omega arith in
    let whole : bit_xor (x % 2 ^ 8) (x / 2 ^ 8 * 2 ^ 8) ≡ x =
      bit_xor_split 8 (x / 2 ^ 8) (x % 2 ^ 8) low ∙ omega arith in
    ap₂ bit_xor
      (ap (λ j. get_or crc_table j 0) (bit_and_mask 8 0xFF x refl) ∙ table_entry (x % 2 ^ 8) low)
      (sym (byte_high c b h))
    ∙ sym (shift_rounds-bit_xor 8 (x % 2 ^ 8) (x / 2 ^ 8))
    ∙ ap (shift_rounds 8) whole

crc_loop-bitwise : (c : ℕ) (bs : List ℕ) → All IsByte bs → crc_loop c bs ≡ bitwise_loop c bs
unfolding crc_loop bitwise_loop
crc_loop-bitwise c [] h = refl
crc_loop-bitwise c (b ∷ bs) h =
    rw (crc_byte-rounds c b h.0) (crc_loop-bitwise (shift_rounds 8 (bit_xor c b)) bs h.1)

-- On any bytes the table-driven checksum is the bitwise one.
pub crc32-bitwise : (bs : List ℕ) → All IsByte bs → crc32 bs ≡ bitwise_crc bs
unfolding crc32 bitwise_crc
crc32-bitwise bs h = ap (λ c. bit_xor c 0xFFFFFFFF) (crc_loop-bitwise 0xFFFFFFFF bs h)
