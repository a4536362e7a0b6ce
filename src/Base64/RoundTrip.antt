-- ===== src/Base64/RoundTrip.antt =====
-- Base64 text is read back as the bytes it was made of (runtime/src/builtin.c).
use writeonce.Common.{
  ℕ, ◌+◌, ◌-◌, ◌*◌, ◌/◌, ◌%◌, ◌^◌, ◌<◌, ◌≡◌, refl, ◌∙◌, ap, ap₂, Bool, true, Option, some, List, [],
  ◌∷◌, ◌++◌, All, length, take, ◌==◌, if◌then◌else◌, eq→==, arith,
}
use writeonce.Wire.{Memory}
use writeonce.Wire.Integers.{IsByte}
use writeonce.Base64.{
  pad_char, digit, encode_text, quad_digit, push_digit, is_last, three_bytes, with_bytes,
  decode_quads, decoded, base64_to_bytes,
}
use writeonce.Base64.Digits.{quad_digit-b64}
use writeonce.Base64.Lengths.{length-encode_text, pads, length-pads, pad_count-encode_text}

quad_digit-digit : (final : Bool) (v s : ℕ) → quad_digit final (digit v s) ≡ some (v / 2 ^ s % 64)
quad_digit-digit final v s = quad_digit-b64 final (v / 2 ^ s % 64) (omega arith)

quad_digit-pad : quad_digit true pad_char ≡ some 0
unfolding quad_digit
quad_digit-pad = refl

-- The four digits of a quad together.
abbrev joined : Option ℕ → Option ℕ → Option ℕ → Option ℕ → Option ℕ
joined a b c d = push_digit (push_digit (push_digit (push_digit (some 0) a) b) c) d

joined-full :
    (final : Bool) (v : ℕ)
    → v < 2 ^ 24
    → joined
        (quad_digit final (digit v 18))
        (quad_digit final (digit v 12))
        (quad_digit final (digit v 6))
        (quad_digit final (digit v 0))
      ≡ some v
joined-full final v h =
    rw
      (
        quad_digit-digit final v 18,
        quad_digit-digit final v 12,
        quad_digit-digit final v 6,
        quad_digit-digit final v 0,
      )
      (ap (λ (n : ℕ). some n) (omega (arith, h)))

joined-two :
    (v : ℕ)
    → v < 2 ^ 24
    → v % 2 ^ 6 ≡ 0
    → joined
        (quad_digit true (digit v 18))
        (quad_digit true (digit v 12))
        (quad_digit true (digit v 6))
        (quad_digit true pad_char)
      ≡ some v
joined-two v h low =
    rw
      (
        quad_digit-digit true v 18,
        quad_digit-digit true v 12,
        quad_digit-digit true v 6,
        quad_digit-pad,
      )
      (ap (λ (n : ℕ). some n) (omega (arith, h, low)))

joined-one :
    (v : ℕ)
    → v < 2 ^ 24
    → v % 2 ^ 12 ≡ 0
    → joined
        (quad_digit true (digit v 18))
        (quad_digit true (digit v 12))
        (quad_digit true pad_char)
        (quad_digit true pad_char)
      ≡ some v
joined-one v h low =
    rw (quad_digit-digit true v 18, quad_digit-digit true v 12, quad_digit-pad)
      (ap (λ (n : ℕ). some n) (omega (arith, h, low)))

three_bytes-parts :
    (a b c : ℕ)
    → a < 256
    → b < 256
    → c < 256
    → three_bytes (a * 2 ^ 16 + b * 2 ^ 8 + c) ≡ a ∷ b ∷ c ∷ []
three_bytes-parts a b c ha hb hc =
    let e1 : (a * 2 ^ 16 + b * 2 ^ 8 + c) / 2 ^ 16 % 256 ≡ a = omega arith in
    let e2 : (a * 2 ^ 16 + b * 2 ^ 8 + c) / 2 ^ 8 % 256 ≡ b = omega arith in
    let e3 : (a * 2 ^ 16 + b * 2 ^ 8 + c) % 256 ≡ c = omega arith in rw (e1, e2, e3) refl

have_three : (p : List ℕ) → (if is_last (encode_text p) then 3 - pads p else 3) ≡ 3
unfolding encode_text
have_three [] = refl
have_three (a ∷ []) = refl
have_three (a ∷ b ∷ []) = refl
have_three (a ∷ b ∷ c ∷ rest) = refl

decode_quads-encode_text :
    (p : List ℕ) → All IsByte p → decode_quads (pads p) (encode_text p) ≡ some p
unfolding decode_quads encode_text
decode_quads-encode_text [] h = refl
decode_quads-encode_text (a ∷ []) (ha, h) =
    let v = a * 2 ^ 16 in
    let first : v / 2 ^ 16 % 256 ≡ a = omega (arith, ha) in
    ap (λ o. with_bytes 1 o (some [])) (joined-one v (omega (arith, ha)) (omega arith))
    ∙ ap (λ (x : ℕ). some (x ∷ [])) first
decode_quads-encode_text (a ∷ b ∷ []) (ha, (hb, h)) =
    let v = a * 2 ^ 16 + b * 2 ^ 8 in
    let first : v / 2 ^ 16 % 256 ≡ a = omega (arith, ha, hb) in
    let second : v / 2 ^ 8 % 256 ≡ b = omega (arith, ha, hb) in
    ap (λ o. with_bytes 2 o (some [])) (joined-two v (omega (arith, ha, hb)) (omega arith))
    ∙ ap₂ (λ (x y : ℕ). some (x ∷ y ∷ [])) first second
decode_quads-encode_text (a ∷ b ∷ c ∷ rest) (ha, (hb, (hc, h))) =
    let final = is_last (encode_text rest) in
    let v = a * 2 ^ 16 + b * 2 ^ 8 + c in
    rw
      (
        joined-full final v (omega (arith, ha, hb, hc)),
        decode_quads-encode_text rest h,
        have_three rest,
      )
      (ap (λ (l : List ℕ). some (take 3 l ++ rest)) (three_bytes-parts a b c ha hb hc))

-- With memory for the bytes, the base64 text of any bytes is read back as these bytes.
pub base64_to_bytes-encode_text :
    (mem : Memory) (p : List ℕ)
    → All IsByte p
    → mem (length p) ≡ true
    → base64_to_bytes mem (encode_text p) ≡ decoded p
unfolding base64_to_bytes
base64_to_bytes-encode_text mem p h granted =
    let size = length-encode_text p in
    let whole : (length (encode_text p) % 4 == 0) ≡ true =
      eq→== (length (encode_text p) % 4) 0 (omega (arith, size)) in
    let asked : length (encode_text p) / 4 * 3 - pads p ≡ length p =
      omega (arith, size, length-pads p) in
    rw (whole, pad_count-encode_text p, asked, granted, decode_quads-encode_text p h) refl
