-- ===== src/Crc/Detection.antt =====
-- What the checksum of database/src/wal.c catches: it is a 32-bit word, and no change of one byte
-- leaves it as it was.
use writeonce.Common.{
  ℕ, zero, suc, ◌/◌, ◌^◌, ◌<◌, ◌≡◌, ◌≢◌, sym, ◌∙◌, List, [], ◌∷◌, ◌++◌, All, bit_xor, arith,
}
use writeonce.Common.Bits.Xor.{
  bit_xor-lt, bit_xor_injective, bit_xor_injective_left, bit_xor_cancel, bit_xor_comm,
}
use writeonce.Crc.{poly, shift_out, shift_rounds, crc_byte, crc_loop, crc32}
use writeonce.Crc.Reference.{shift_out_lem, crc_byte-rounds}
use writeonce.Wire.Integers.{IsByte}

abbrev IsWord : ℕ → Type 0
IsWord c = c < 2 ^ 32

shift_out-IsWord : (c : ℕ) → IsWord c → IsWord (shift_out c)
shift_out-IsWord c h =
    rw (shift_out_lem c) (ground (arith, bit_xor-lt 32 poly (c / 2) (omega arith) (omega arith)))

-- The top bit of the result is the bit that was shifted out.
odd_high : (c : ℕ) → IsWord c → bit_xor poly (c / 2) < 2 ^ 31 → ⊥
odd_high c h low = omega (
  arith,
  bit_xor_cancel (c / 2) poly,
  bit_xor-lt 31 (c / 2) (bit_xor (c / 2) poly) (omega arith) (rw (comm (c / 2)) low),
)
  where
    comm : (x : ℕ) → bit_xor x poly ≡ bit_xor poly x
    comm x = bit_xor_comm x poly

shift_out_injective : (c d : ℕ) → IsWord c → IsWord d → shift_out c ≡ shift_out d → c ≡ d
shift_out_injective c d hc hd e = ground (
  arith,
  shift_out_lem c,
  shift_out_lem d,
  odd_high c hc,
  odd_high d hd,
  bit_xor_injective poly (c / 2) (d / 2),
)

shift_rounds-IsWord : (k c : ℕ) → IsWord c → IsWord (shift_rounds k c)
unfolding shift_rounds
shift_rounds-IsWord zero c h = h
shift_rounds-IsWord (suc k) c h = shift_rounds-IsWord k (shift_out c) (shift_out-IsWord c h)

shift_rounds_injective :
    (k c d : ℕ) → IsWord c → IsWord d → shift_rounds k c ≡ shift_rounds k d → c ≡ d
unfolding shift_rounds
shift_rounds_injective zero c d hc hd e = e
shift_rounds_injective (suc k) c d hc hd e = shift_out_injective c d hc hd (
    shift_rounds_injective k (shift_out c) (shift_out d) (shift_out-IsWord c hc)
      (shift_out-IsWord d hd) e)

mixed-IsWord : (c b : ℕ) → IsWord c → IsByte b → IsWord (bit_xor c b)
mixed-IsWord c b hc hb = bit_xor-lt 32 c b hc (omega arith)

crc_byte-IsWord : (c b : ℕ) → IsWord c → IsByte b → IsWord (crc_byte c b)
crc_byte-IsWord c b hc hb =
    rw (crc_byte-rounds c b hb) (shift_rounds-IsWord 8 (bit_xor c b) (mixed-IsWord c b hc hb))

crc_byte_mixed :
    (c d b a : ℕ)
    → IsWord c
    → IsWord d
    → IsByte b
    → IsByte a
    → crc_byte c b ≡ crc_byte d a
    → bit_xor c b ≡ bit_xor d a
crc_byte_mixed c d b a hc hd hb ha e =
    shift_rounds_injective 8 (bit_xor c b) (bit_xor d a) (mixed-IsWord c b hc hb)
      (mixed-IsWord d a hd ha) (sym (crc_byte-rounds c b hb) ∙ e ∙ crc_byte-rounds d a ha)

crc_loop-IsWord : (c : ℕ) (bs : List ℕ) → IsWord c → All IsByte bs → IsWord (crc_loop c bs)
unfolding crc_loop
crc_loop-IsWord c [] hc h = hc
crc_loop-IsWord c (b ∷ bs) hc h = crc_loop-IsWord (crc_byte c b) bs (crc_byte-IsWord c b hc h.0) h.1

crc_loop_injective :
    (bs : List ℕ) (c d : ℕ)
    → All IsByte bs
    → IsWord c
    → IsWord d
    → crc_loop c bs ≡ crc_loop d bs
    → c ≡ d
unfolding crc_loop
crc_loop_injective [] c d h hc hd e = e
crc_loop_injective (b ∷ bs) c d h hc hd e =
    let heads =
      crc_loop_injective bs (crc_byte c b) (crc_byte d b) h.1 (crc_byte-IsWord c b hc h.0)
        (crc_byte-IsWord d b hd h.0) e in
    bit_xor_injective_left b c d (crc_byte_mixed c d b b hc hd h.0 h.0 heads)

crc_loop-change :
    (front back : List ℕ) (c a b : ℕ)
    → IsWord c
    → All IsByte front
    → All IsByte back
    → IsByte a
    → IsByte b
    → crc_loop c (front ++ a ∷ back) ≡ crc_loop c (front ++ b ∷ back)
    → a ≡ b
unfolding crc_loop
crc_loop-change [] back c a b hc hf hk ha hb e =
    let heads =
      crc_loop_injective back (crc_byte c a) (crc_byte c b) hk (crc_byte-IsWord c a hc ha)
        (crc_byte-IsWord c b hc hb) e in
    bit_xor_injective c a b (crc_byte_mixed c c a b hc hc ha hb heads)
crc_loop-change (x ∷ front) back c a b hc hf hk ha hb e =
    crc_loop-change front back (crc_byte c x) a b (crc_byte-IsWord c x hc hf.0) hf.1 hk ha hb e

-- The checksum of bytes fits 32 bits.
pub crc32-lt : (bs : List ℕ) → All IsByte bs → crc32 bs < 2 ^ 32
unfolding crc32
crc32-lt bs h =
    bit_xor-lt 32 (crc_loop 0xFFFFFFFF bs) 0xFFFFFFFF
      (crc_loop-IsWord 0xFFFFFFFF bs (omega arith) h) (omega arith)

-- Two byte strings that differ in exactly one byte have different checksums.
pub crc32-change :
    (front back : List ℕ) (a b : ℕ)
    → All IsByte front
    → All IsByte back
    → IsByte a
    → IsByte b
    → a ≢ b
    → crc32 (front ++ a ∷ back) ≢ crc32 (front ++ b ∷ back)
unfolding crc32
crc32-change front back a b hf hk ha hb ne e = ne (
    crc_loop-change front back 0xFFFFFFFF a b (omega arith) hf hk ha hb
      (bit_xor_injective_left 0xFFFFFFFF _ _ e))
