-- ===== src/Tests/Base64s.antt =====
-- Base64 on concrete texts (runtime/src/builtin.c and runtime/src/json.c).
use writeonce.Common.{ℕ, ◌≡◌, refl, false, ltb, List, [], ◌∷◌, All, length, arith}
use writeonce.Wire.{no_bytes, wput, grown, double_until}
use writeonce.Wire.Integers.{IsByte}
use writeonce.Base64.{
  b64, b64_val, encode_text, out_len, encoded, base64_encode, pad_count, quad_digit, decode_quads,
  decoded, malformed, base64_to_bytes, jb_b64,
}
use writeonce.Base64.Lengths.{base64_encode-fits}
use writeonce.Base64.RoundTrip.{base64_to_bytes-encode_text}
use writeonce.Tests.Records.{plenty}

-- "foobar" and "foob" of RFC 4648.
foobar :
    encode_text (102 ∷ 111 ∷ 111 ∷ 98 ∷ 97 ∷ 114 ∷ [])
    ≡ 90 ∷ 109 ∷ 57 ∷ 118 ∷ 89 ∷ 109 ∷ 70 ∷ 121 ∷ []
unfolding encode_text b64
foobar = refl

abbrev foob : List ℕ
foob = 102 ∷ 111 ∷ 111 ∷ 98 ∷ []

foob_text : encode_text foob ≡ 90 ∷ 109 ∷ 57 ∷ 118 ∷ 89 ∷ 103 ∷ 61 ∷ 61 ∷ []
unfolding encode_text b64
foob_text = refl

foob-IsByte : All IsByte foob
foob-IsByte = (omega arith, (omega arith, (omega arith, (omega arith, tt))))

base64_to_bytes-encode_text_example : base64_to_bytes plenty (encode_text foob) ≡ decoded foob
base64_to_bytes-encode_text_example = base64_to_bytes-encode_text plenty foob foob-IsByte refl

base64_encode-fits_example :
    base64_encode plenty foob ≡ encoded (length (encode_text foob)) (encode_text foob)
base64_encode-fits_example = base64_encode-fits plenty foob (omega arith) refl

foob_good : (jb_b64 plenty no_bytes foob).oom ≡ false
unfolding jb_b64 b64 wput grown double_until
foob_good = refl

-- The padding is accepted in other places of the last quad: "AA=A" and "=AAA".
padding_inside : base64_to_bytes plenty (65 ∷ 65 ∷ 61 ∷ 65 ∷ []) ≡ decoded (0 ∷ 0 ∷ [])
unfolding base64_to_bytes pad_count decode_quads quad_digit b64_val
padding_inside = refl

padding_first : base64_to_bytes plenty (61 ∷ 65 ∷ 65 ∷ 65 ∷ []) ≡ decoded (0 ∷ 0 ∷ 0 ∷ [])
unfolding base64_to_bytes pad_count decode_quads quad_digit b64_val
padding_first = refl

padding_early : base64_to_bytes plenty (65 ∷ 65 ∷ 65 ∷ 61 ∷ 65 ∷ 65 ∷ 65 ∷ 65 ∷ []) ≡ malformed
unfolding base64_to_bytes pad_count decode_quads quad_digit b64_val
padding_early = refl

-- The two lengths above 0xBFFFFFFD that are let through ask for no memory at all.
asked_for_nothing : out_len 0xBFFFFFFE ≡ 0
unfolding out_len
asked_for_nothing = refl

let_through : ltb 0xBFFFFFFF 0xBFFFFFFE ≡ false
let_through = refl
