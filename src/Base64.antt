-- ===== src/Base64.antt =====
-- Base64 as the runtime writes and reads it: `WO_B_BASE64_ENCODE` and `wo_base64_to_bytes` of
-- runtime/src/builtin.c, and `jb_b64` of runtime/src/json.c. Text is the list of its bytes.
-- In `v` the parts do not overlap, so that the sums here are the `|` of the source. The memory of a
-- text is asked for by its length, without the header.
pub mod Digits
pub mod RoundTrip
pub mod Lengths
pub mod Fields
use writeonce.Common.{
  ℕ, zero, suc, ◌+◌, ◌-◌, ◌*◌, ◌/◌, ◌%◌, ◌^◌, Bool, true, false, ◌&&◌, not, Option, none, some,
  List, [], ◌∷◌, ◌++◌, length, get_or, take, ltb, leb, ◌==◌, if◌then◌else◌,
}
use writeonce.Wire.{Memory, Wbuf, wput}

-- "ABCDEFGHIJKLMNOPQRSTUVWXYZabcdefghijklmnopqrstuvwxyz0123456789+/"[i]
unfoldable pub b64 : ℕ → ℕ
b64 i =
    if ltb i 26
    then 65 + i
    else if ltb i 52
    then 97 + (i - 26)
    else if ltb i 62
    then 48 + (i - 52)
    else if i == 62
    then 43
    else 47

-- '='
abbrev pub pad_char : ℕ
pad_char = 61

-- `none` for -1.
unfoldable pub b64_val : ℕ → Option ℕ
b64_val c =
    if leb 65 c && leb c 90
    then some (c - 65)
    else if leb 97 c && leb c 122
    then some (c - 97 + 26)
    else if leb 48 c && leb c 57
    then some (c - 48 + 52)
    else if c == 43
    then some 62
    else if c == 47
    then some 63
    else none

-- B64[(v >> s) & 63]
abbrev pub digit : ℕ → ℕ → ℕ
digit v s = b64 (v / 2 ^ s % 64)

abbrev pub full_quad : ℕ → ℕ → ℕ → List ℕ
full_quad a b c =
    let v = a * 2 ^ 16 + b * 2 ^ 8 + c in digit v 18 ∷ digit v 12 ∷ digit v 6 ∷ digit v 0 ∷ []

-- The last one or two bytes.
abbrev pub two_left : ℕ → ℕ → List ℕ
two_left a b = let v = a * 2 ^ 16 + b * 2 ^ 8 in digit v 18 ∷ digit v 12 ∷ digit v 6 ∷ pad_char ∷ []

abbrev pub one_left : ℕ → List ℕ
one_left a = let v = a * 2 ^ 16 in digit v 18 ∷ digit v 12 ∷ pad_char ∷ pad_char ∷ []

-- The bytes that the loop of the encoder writes.
unfoldable pub encode_text : List ℕ → List ℕ
unfolding b64
encode_text [] = []
encode_text (a ∷ []) = one_left a
encode_text (a ∷ b ∷ []) = two_left a b
encode_text (a ∷ b ∷ c ∷ rest) = full_quad a b c ++ encode_text rest

-- uint32_t olen = ((b->len + 2u) / 3u) * 4u
unfoldable pub out_len : ℕ → ℕ
out_len len = (len + 2) % 2 ^ 32 / 3 * 4 % 2 ^ 32

-- A text of the length that was asked for, and what is written there.
pub data Encoded : Type 0 where
  too_large : Encoded
  no_memory : Encoded
  encoded : ℕ → List ℕ → Encoded

unfoldable pub base64_encode : Memory → List ℕ → Encoded
unfolding out_len encode_text
base64_encode mem p =
    if ltb 0xBFFFFFFF (length p)
    then too_large
    else if mem (out_len (length p))
    then encoded (out_len (length p)) (encode_text p)
    else no_memory

unfoldable pub pad_count : List ℕ → ℕ
pad_count p =
    let len = length p in
    if len == 0
    then 0
    else (if get_or p (len - 1) 0 == pad_char then 1 else 0)
      + (if leb 2 len && get_or p (len - 2) 0 == pad_char then 1 else 0)

-- One character of a quad; `final` for the last quad.
unfoldable pub quad_digit : Bool → ℕ → Option ℕ
unfolding b64_val
quad_digit final c = if c == pad_char then (if final then some 0 else none) else b64_val c

-- v = (v << 6) | d
abbrev pub push_digit : Option ℕ → Option ℕ → Option ℕ
push_digit none d = none
push_digit (some v) none = none
push_digit (some v) (some d) = some (v * 64 + d)

abbrev pub is_last : List ℕ → Bool
is_last [] = true
is_last (c ∷ cs) = false

abbrev pub three_bytes : ℕ → List ℕ
three_bytes v = v / 2 ^ 16 % 256 ∷ v / 2 ^ 8 % 256 ∷ v % 256 ∷ []

abbrev pub with_bytes : ℕ → Option ℕ → Option (List ℕ) → Option (List ℕ)
with_bytes have none rest = none
with_bytes have (some v) none = none
with_bytes have (some v) (some bs) = some (take have (three_bytes v) ++ bs)

-- The loop over the quads; a length that is no multiple of four does not come here.
unfoldable pub decode_quads : ℕ → List ℕ → Option (List ℕ)
unfolding quad_digit
decode_quads pad (a ∷ b ∷ c ∷ d ∷ rest) =
    let final = is_last rest in
    let v =
      push_digit
        (push_digit (push_digit (push_digit (some 0) (quad_digit final a)) (quad_digit final b))
          (quad_digit final c))
        (quad_digit final d) in
    with_bytes (if final then 3 - pad else 3) v (decode_quads pad rest)
decode_quads pad other = some []

-- The results -1, -2 and 0.
pub data Decoded : Type 0 where
  malformed : Decoded
  out_of_memory : Decoded
  decoded : List ℕ → Decoded

abbrev pub decoded_or : Option (List ℕ) → Decoded
decoded_or none = malformed
decoded_or (some bs) = decoded bs

unfoldable pub base64_to_bytes : Memory → List ℕ → Decoded
unfolding pad_count decode_quads
base64_to_bytes mem p =
    if not (length p % 4 == 0)
    then malformed
    else if mem (length p / 4 * 3 - pad_count p)
    then decoded_or (decode_quads (pad_count p) p)
    else out_of_memory

-- `jb_put` grows and writes as `wput` of database/src/wal.c does, with the first capacity 256 too.
abbrev pub jb_put : Memory → Wbuf → List ℕ → Wbuf
jb_put mem b s = wput mem b s

unfoldable pub jb_b64 : Memory → Wbuf → List ℕ → Wbuf
unfolding b64
jb_b64 mem w [] = w
jb_b64 mem w (a ∷ []) = jb_put mem w (one_left a)
jb_b64 mem w (a ∷ b ∷ []) = jb_put mem w (two_left a b)
jb_b64 mem w (a ∷ b ∷ c ∷ rest) = jb_b64 mem (jb_put mem w (full_quad a b c)) rest
