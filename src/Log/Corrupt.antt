-- ===== src/Log/Corrupt.antt =====
-- A record with a damaged payload (`scan_record` of database/src/wal.c).
use writeonce.Common.{
  ℕ, ◌^◌, ◌≤◌, ◌<◌, ◌≡◌, ◌≢◌, refl, ◌∙◌, sym, ap, none, List, ◌∷◌, ◌++◌, append_assoc, length, take,
  drop, length-append, take-length_append, drop-length_append, All, All-append, Option-cases, inl,
  inr, arith,
}
use writeonce.Wire.{Memory, le_bytes, le_value}
use writeonce.Wire.Integers.{IsByte, length-le_bytes, le_value-le_bytes}
use writeonce.Crc.{crc32}
use writeonce.Crc.Detection.{crc32-lt, crc32-change}
use writeonce.Log.{mark, max_payload, frame, scan_record, past}
use writeonce.Log.Frame.{IsPayload}
use writeonce.Log.Scan.{scan_record_sound}

-- The same bytes, cut after parts of one length.
cut_same :
    (xs xs' ys ys' : List ℕ)
    → length xs ≡ length xs'
    → xs ++ ys ≡ xs' ++ ys'
    → (xs ≡ xs') × (ys ≡ ys')
cut_same xs xs' ys ys' size e = (
  sym (take-length_append (length xs) xs ys refl)
      ∙ ap (take (length xs)) e
      ∙ take-length_append (length xs) xs' ys' (sym size),
  sym (drop-length_append (length xs) xs ys refl)
      ∙ ap (drop (length xs)) e
      ∙ drop-length_append (length xs) xs' ys' (sym size),
)

le_bytes_injective : (v u : ℕ) → v < 2 ^ 32 → u < 2 ^ 32 → le_bytes 4 v ≡ le_bytes 4 u → v ≡ u
le_bytes_injective v u h k e =
    sym (le_value-le_bytes 4 v h) ∙ ap le_value e ∙ le_value-le_bytes 4 u k

-- A record with another payload of the same length in place of its own has the same checksum.
same_crc :
    (p q r rest after : List ℕ)
    → All IsByte p
    → IsPayload r
    → length p ≡ length q
    → length p ≤ max_payload
    → le_bytes 4 (length p) ++ (le_bytes 4 (crc32 p) ++ (q ++ rest)) ≡ frame r ++ after
    → (crc32 p ≡ crc32 r) × (q ≡ r)
unfolding frame
same_crc p q r rest after hp hr size small e =
    let body = r ++ le_bytes 4 mark in
    let whole =
      e
      ∙ append_assoc (le_bytes 4 (length r)) (le_bytes 4 (crc32 r) ++ body) after
      ∙ ap (λ t. le_bytes 4 (length r) ++ t)
          (append_assoc (le_bytes 4 (crc32 r)) body after
            ∙ ap (λ t. le_bytes 4 (crc32 r) ++ t) (append_assoc r (le_bytes 4 mark) after)) in
    let (len_same, behind) =
      cut_same (le_bytes 4 (length p)) (le_bytes 4 (length r)) _ _
        (length-le_bytes 4 (length p) ∙ sym (length-le_bytes 4 (length r))) whole in
    let (crc_same, payload) =
      cut_same (le_bytes 4 (crc32 p)) (le_bytes 4 (crc32 r)) _ _
        (length-le_bytes 4 (crc32 p) ∙ sym (length-le_bytes 4 (crc32 r))) behind in
    let lengths =
      le_bytes_injective (length p) (length r) (omega arith) (omega (arith, hr.small)) len_same in
    (
      le_bytes_injective (crc32 p) (crc32 r) (crc32-lt p hp) (crc32-lt r hr.bytes) crc_same,
      (cut_same q r _ _ (sym size ∙ lengths) payload).0,
    )

-- In a file of bytes, `scan_record` refuses a record of which one byte of the payload has another
-- value than when it was framed, whatever malloc answers.
pub scan_record-corrupt :
    (mem : Memory) (file front back rest : List ℕ) (a b off : ℕ)
    → All IsByte file
    → All IsByte front
    → All IsByte back
    → IsByte a
    → IsByte b
    → a ≢ b
    → length (front ++ a ∷ back) ≤ max_payload
    → drop off file
      ≡ le_bytes 4 (length (front ++ a ∷ back))
        ++ (le_bytes 4 (crc32 (front ++ a ∷ back))
            ++ ((front ++ b ∷ back) ++ (le_bytes 4 mark ++ rest)))
    → scan_record mem file off ≡ none
scan_record-corrupt mem file front back rest a b off h hf hk ha hb ne small at =
    elim (Option-cases (scan_record mem file off)) [
      | inl e ↦ e
      | inr (r, e) ↦
          let (valid, stored) = scan_record_sound mem file r off h e in
          let size : length (front ++ a ∷ back) ≡ length (front ++ b ∷ back) =
            length-append front (a ∷ back) ∙ sym (length-append front (b ∷ back)) in
          let (crcs, payload) =
            same_crc (front ++ a ∷ back) (front ++ b ∷ back) r (le_bytes 4 mark ++ rest)
              (drop (past off r) file) (All-append IsByte front (a ∷ back) hf (ha, hk)) valid size
              small (sym at ∙ stored) in
          absurd (crc32-change front back a b hf hk ha hb ne (crcs ∙ ap crc32 (sym payload)))
    ]
