-- ===== src/Base64/Fields.antt =====
-- Base64 in a JSON body (runtime/src/json.c).
use writeonce.Common.{ℕ, ◌≡◌, refl, true, false, List, [], ◌∷◌, ◌++◌, All, length}
use writeonce.Wire.{Memory, Wbuf}
use writeonce.Wire.Integers.{IsByte}
use writeonce.Wire.Appending.{Appends, Appends-nil, Appends-append, wput-Appends}
use writeonce.Base64.{
  full_quad, two_left, one_left, encode_text, jb_put, jb_b64, decoded, base64_to_bytes,
}
use writeonce.Base64.RoundTrip.{base64_to_bytes-encode_text}

jb_b64-Appends : (mem : Memory) (w : Wbuf) (p : List ℕ) → Appends w (jb_b64 mem w p) (encode_text p)
unfolding jb_b64 encode_text
jb_b64-Appends mem w [] = Appends-nil w
jb_b64-Appends mem w (a ∷ []) = wput-Appends mem w (one_left a)
jb_b64-Appends mem w (a ∷ b ∷ []) = wput-Appends mem w (two_left a b)
jb_b64-Appends mem w (a ∷ b ∷ c ∷ rest) =
    Appends-append (wput-Appends mem w (full_quad a b c))
      (jb_b64-Appends mem (jb_put mem w (full_quad a b c)) rest)

-- If no allocation has failed by its end, what jb_b64 puts into a JSON body for some bytes is the
-- text that the encoder of the runtime makes of them, and with memory for the bytes
-- wo_base64_to_bytes reads them back.
pub base64_to_bytes-jb_b64 :
    (mem mem' : Memory) (w : Wbuf) (p : List ℕ)
    → All IsByte p
    → (jb_b64 mem w p).oom ≡ false
    → mem' (length p) ≡ true
    → (text : List ℕ) × (text ≡ encode_text p)
      × ((jb_b64 mem w p).bytes ≡ w.bytes ++ text)
      × (base64_to_bytes mem' text ≡ decoded p)
base64_to_bytes-jb_b64 mem mem' w p h good granted = (
  encode_text p,
  refl,
  (jb_b64-Appends mem w p).appended good,
  base64_to_bytes-encode_text mem' p h granted,
)
