-- ===== src/Base64/Digits.antt =====
-- The alphabet of base64: a digit is read back as its value (runtime/src/builtin.c).
use writeonce.Common.{
  ℕ, zero, suc, ◌<◌, ◌≡◌, refl, ap, Bool, true, false, ◌&&◌, not, Option, none, some, ◌==◌,
  eq-cases, ==→eq, inl, inr, arith,
}
use writeonce.Base64.{b64, pad_char, b64_val, quad_digit}

abbrev reads_back : Option ℕ → ℕ → Bool
reads_back none i = false
reads_back (some j) i = j == i

-- Whether all digits below `n` are read back, and none of them is the padding.
abbrev all_read : ℕ → Bool
all_read zero = true
all_read (suc n) = (reads_back (b64_val (b64 n)) n && not (b64 n == pad_char)) && all_read n

all_digits : all_read 64 ≡ true
unfolding b64 b64_val
all_digits = refl

reads_back-eq : (o : Option ℕ) (i : ℕ) → reads_back o i ≡ true → o ≡ some i
reads_back-eq none i e = cc
reads_back-eq (some j) i e = ap (λ (k : ℕ). some k) (==→eq j i e)

and-left : (a b : Bool) → (a && b) ≡ true → a ≡ true
and-left true b e = refl
and-left false b e = cc

and-right : (a b : Bool) → (a && b) ≡ true → b ≡ true
and-right true b e = e
and-right false b e = cc

not-false : (a : Bool) → not a ≡ true → a ≡ false
not-false true e = cc
not-false false e = refl

all_read-digit :
    (n i : ℕ)
    → all_read n ≡ true
    → i < n
    → (b64_val (b64 i) ≡ some i) × ((b64 i == pad_char) ≡ false)
all_read-digit zero i e h = absurd (omega (arith, h))
all_read-digit (suc n) i e h = elim (eq-cases i n) [
  | inl same ↦
      let here =
        and-left (reads_back (b64_val (b64 n)) n && not (b64 n == pad_char)) (all_read n) e in
      rw same (
        reads_back-eq (b64_val (b64 n)) n
            (and-left (reads_back (b64_val (b64 n)) n) (not (b64 n == pad_char)) here),
        not-false (b64 n == pad_char)
            (and-right (reads_back (b64_val (b64 n)) n) (not (b64 n == pad_char)) here),
      )
  | inr other ↦
      all_read-digit n i
        (and-right (reads_back (b64_val (b64 n)) n && not (b64 n == pad_char)) (all_read n) e)
        (omega (arith, h, other))
]

pub b64-pad : (i : ℕ) → i < 64 → (b64 i == pad_char) ≡ false
b64-pad i h = (all_read-digit 64 i all_digits h).1

pub quad_digit-b64 : (final : Bool) (i : ℕ) → i < 64 → quad_digit final (b64 i) ≡ some i
unfolding quad_digit
quad_digit-b64 final i h = rw (b64-pad i h) (all_read-digit 64 i all_digits h).0
