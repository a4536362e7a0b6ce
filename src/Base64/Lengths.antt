-- ===== src/Base64/Lengths.antt =====
-- The lengths of base64 texts, and their padding (runtime/src/builtin.c).
use writeonce.Common.{
  ℕ, suc, ◌+◌, ◌-◌, ◌*◌, ◌/◌, ◌%◌, ◌^◌, ◌≤◌, ◌≡◌, refl, ◌∙◌, ap, ap₂, Bool, true, false, List, [],
  ◌∷◌, length, leb, ◌==◌, if◌then◌else◌, ne→==, le→ltb, arith,
}
use writeonce.Wire.{Memory}
use writeonce.Base64.{pad_char, digit, encode_text, out_len, encoded, base64_encode, pad_count}
use writeonce.Base64.Digits.{b64-pad}

pub length-encode_text : (p : List ℕ) → length (encode_text p) ≡ (length p + 2) / 3 * 4
unfolding encode_text
length-encode_text [] = omega arith
length-encode_text (a ∷ []) = omega arith
length-encode_text (a ∷ b ∷ []) = omega arith
length-encode_text (a ∷ b ∷ c ∷ rest) = omega (arith, length-encode_text rest)

-- The padding of a text, by the bytes it stands for.
abbrev pub pads : List ℕ → ℕ
pads [] = 0
pads (a ∷ []) = 2
pads (a ∷ b ∷ []) = 1
pads (a ∷ b ∷ c ∷ rest) = pads rest

pub length-pads : (p : List ℕ) → (length p + 2) / 3 * 3 ≡ length p + pads p
length-pads [] = omega arith
length-pads (a ∷ []) = omega arith
length-pads (a ∷ b ∷ []) = omega arith
length-pads (a ∷ b ∷ c ∷ rest) = omega (arith, length-pads rest)

-- Only the last two characters count.
pad_count-skip :
    (w x y z : ℕ) (l : List ℕ) → 2 ≤ length l → pad_count (w ∷ x ∷ y ∷ z ∷ l) ≡ pad_count l
unfolding pad_count
pad_count-skip w x y z l h =
    let n = length l in
    let last : suc (suc (suc (suc n))) - 1 ≡ suc (suc (suc (suc (n - 1)))) = omega (arith, h) in
    let before : suc (suc (suc (suc n))) - 2 ≡ suc (suc (suc (suc (n - 2)))) = omega (arith, h) in
    let long : leb 2 (suc (suc (suc (suc n)))) ≡ true = ground arith in
    let some_left : (n == 0) ≡ false = ne→== n 0 (λ e. absurd (omega (arith, h, e))) in
    let two_there : leb 2 n ≡ true = ground (arith, h) in
    let longer : (suc (suc (suc (suc n))) == 0) ≡ false =
      ne→== (suc (suc (suc (suc n)))) 0 (λ e. absurd (omega (arith, e))) in
    rw (last, before, long, some_left, two_there, longer) refl

pad_count-quad :
    (w x y z : ℕ)
    → pad_count (w ∷ x ∷ y ∷ z ∷ [])
      ≡ (if z == pad_char then 1 else 0) + (if y == pad_char then 1 else 0)
unfolding pad_count
pad_count-quad w x y z = refl

digit-pad : (v s : ℕ) → (digit v s == pad_char) ≡ false
digit-pad v s = b64-pad (v / 2 ^ s % 64) (omega arith)

pad_count-nil : pad_count [] ≡ 0
unfolding pad_count
pad_count-nil = refl

pub pad_count-encode_text : (p : List ℕ) → pad_count (encode_text p) ≡ pads p
unfolding encode_text
pad_count-encode_text [] = pad_count-nil
pad_count-encode_text (a ∷ []) =
    pad_count-quad (digit (a * 2 ^ 16) 18) (digit (a * 2 ^ 16) 12) pad_char pad_char
pad_count-encode_text (a ∷ b ∷ []) =
    let v = a * 2 ^ 16 + b * 2 ^ 8 in
    pad_count-quad (digit v 18) (digit v 12) (digit v 6) pad_char
    ∙ ap (λ (t : Bool). 1 + (if t then 1 else 0)) (digit-pad v 6)
pad_count-encode_text (a ∷ b ∷ c ∷ []) =
    let v = a * 2 ^ 16 + b * 2 ^ 8 + c in
    pad_count-quad (digit v 18) (digit v 12) (digit v 6) (digit v 0)
    ∙ ap₂ (λ (t u : Bool). (if t then 1 else 0) + (if u then 1 else 0)) (digit-pad v 0)
        (digit-pad v 6)
pad_count-encode_text (a ∷ b ∷ c ∷ d ∷ rest) =
    pad_count-skip _ _ _ _ (encode_text (d ∷ rest)) (omega (arith, length-encode_text (d ∷ rest)))
    ∙ pad_count-encode_text (d ∷ rest)

-- Up to this length the text of an input is as long as the memory that is asked for it.
pub base64_encode-fits :
    (mem : Memory) (p : List ℕ)
    → length p ≤ 0xBFFFFFFD
    → mem (length (encode_text p)) ≡ true
    → base64_encode mem p ≡ encoded (length (encode_text p)) (encode_text p)
unfolding base64_encode out_len
base64_encode-fits mem p h granted =
    let size : out_len (length p) ≡ length (encode_text p) = omega (arith, length-encode_text p) in
    rw (le→ltb 0xBFFFFFFF (length p) (omega arith), size, granted) refl
