-- ===== src/Log/Torn.antt =====
-- A write that a crash cut short (database/src/wal.c): the log is preallocated, so that zeros follow
-- the bytes that reached the disk.
use writeonce.Common.{
  ℕ, zero, suc, ◌+◌, ◌-◌, ◌≤◌, ◌<◌, ◌≡◌, ◌≢◌, refl, ◌∙◌, sym, ap, List, [], ◌∷◌, ◌++◌, append_assoc,
  length, take, drop, get_or, replicate, length-take, drop-length_append, take-length_append,
  get_or-append_right, get_or-replicate, All, All-append, Option-cases, inl, inr, Bool-cases, ltb,
  ltb→lt, ltb→le, arith, true,
}
use writeonce.Wire.{Memory, le_bytes, le_value}
use writeonce.Wire.Integers.{IsByte, length-le_bytes, le_bytes-IsByte, le_value-le_bytes}
use writeonce.Crc.{crc32}
use writeonce.Engine.Sound.{All-take}
use writeonce.Log.{mark, frame, frames, scan_record, open_offset, wal_check, past, max_payload}
use writeonce.Log.Frame.{IsPayload, length-frame}
use writeonce.Log.Scan.{scan_record_sound}
use writeonce.Log.Prefix.{wal_check-frames}

frame-IsByte : (p : List ℕ) → All IsByte p → All IsByte (frame p)
unfolding frame
frame-IsByte p h = All-append IsByte (le_bytes 4 (length p)) _ (le_bytes-IsByte 4 (length p)) (
    All-append IsByte (le_bytes 4 (crc32 p)) _ (le_bytes-IsByte 4 (crc32 p))
      (All-append IsByte p _ h (le_bytes-IsByte 4 mark)))

pub frames-IsByte : (ps : List (List ℕ)) → All IsPayload ps → All IsByte (frames ps)
frames-IsByte [] h = tt
frames-IsByte (p ∷ ps) h =
    All-append IsByte (frame p) (frames ps) (frame-IsByte p h.0.bytes) (frames-IsByte ps h.1)

zeros-IsByte : (m : ℕ) → All IsByte (replicate m 0)
zeros-IsByte zero = tt
zeros-IsByte (suc m) = (omega arith, zeros-IsByte m)

-- The last byte of a frame is the highest of the mark, and not zero.
frame_last : (q rest : List ℕ) → get_or (frame q ++ rest) (length q + 11) 0 ≡ 0x57
unfolding frame
frame_last q rest =
    let sizes = length-le_bytes 4 (length q) in
    let sums = length-le_bytes 4 (crc32 q) in
    let flat =
      append_assoc (le_bytes 4 (length q)) (le_bytes 4 (crc32 q) ++ (q ++ le_bytes 4 mark)) rest in
    let flat2 = append_assoc (le_bytes 4 (crc32 q)) (q ++ le_bytes 4 mark) rest in
    let flat3 = append_assoc q (le_bytes 4 mark) rest in
    rw (flat, flat2, flat3)
      (get_or-append_right (le_bytes 4 (length q)) _ (length q + 11) (length q + 7) 0
          (omega (arith, sizes))
        ∙ get_or-append_right (le_bytes 4 (crc32 q)) _ (length q + 7) (length q + 3) 0
            (omega (arith, sums))
        ∙ get_or-append_right q _ (length q + 3) 3 0 refl
        ∙ unfold le_bytes in refl)

frame_size :
    (q rest : List ℕ) → length q ≤ max_payload → le_value (take 4 (frame q ++ rest)) ≡ length q
unfolding frame
frame_size q rest small =
    let tail = le_bytes 4 (crc32 q) ++ (q ++ le_bytes 4 mark) in
    rw
      (
        append_assoc (le_bytes 4 (length q)) tail rest,
        take-length_append 4 (le_bytes 4 (length q)) (tail ++ rest) (length-le_bytes 4 (length q)),
      )
      (le_value-le_bytes 4 (length q) (omega arith))

take-take_append :
    (k n : ℕ) (xs ys zs : List ℕ)
    → k ≤ n
    → n ≤ length xs
    → take k (take n xs ++ ys) ≡ take k (xs ++ zs)
take-take_append zero n xs ys zs h l = refl
take-take_append (suc k) zero xs ys zs h l = elim h [ ]
take-take_append (suc k) (suc n) [] ys zs h l = absurd (omega arith)
take-take_append (suc k) (suc n) (x ∷ xs) ys zs h l =
    ap (λ t. x ∷ t) (take-take_append k n xs ys zs (omega arith) (omega arith))

-- `n` bytes of the frame of `p`, and zeros behind them.
abbrev pub torn : ℕ → List ℕ → ℕ → List ℕ
torn n p m = take n (frame p) ++ replicate m 0

torn_is_none :
    (p : List ℕ) (n m : ℕ) (q rest : List ℕ)
    → n < length (frame p)
    → length p ≤ max_payload
    → length q ≤ max_payload
    → 0 < length q
    → torn n p m ≢ frame q ++ rest
torn_is_none p n m q rest cut small smallq pos e = elim (Bool-cases (ltb (length q + 11) n)) [
  | inr beyond ↦
      let exact : length (take n (frame p)) ≡ n = omega (arith, length-take n (frame p)) in
      let far : n ≤ length q + 11 = ltb→le (length q + 11) n beyond in
      let zero_there : get_or (torn n p m) (length q + 11) 0 ≡ 0 =
        get_or-append_right (take n (frame p)) (replicate m 0) (length q + 11) (length q + 11 - n) 0
          (omega arith)
        ∙ get_or-replicate m (length q + 11 - n) 0 in
      omega (arith, zero_there, ap (λ t. get_or t (length q + 11) 0) e, frame_last q rest)
  | inl within ↦
      let near : length q + 11 < n = ltb→lt (length q + 11) n within in
      let same : take 4 (frame p ++ []) ≡ take 4 (frame q ++ rest) =
        sym (take-take_append 4 n (frame p) (replicate m 0) [] (omega arith) (omega arith))
        ∙ ap (take 4) e in
      omega
        (arith, ap le_value same, frame_size p [] small, frame_size q rest smallq, length-frame p)
]

-- With memory for every record, a log whose last record was written only in part, over zeros, is
-- read up to the record before: `wo_wal_check` counts the whole records and their bytes, and
-- `wo_wal_open` goes on in place of the torn one.
pub wal_check-torn :
    (mem : Memory)
    → ((k : ℕ) → mem k ≡ true)
    → (ps : List (List ℕ)) (p : List ℕ) (n m : ℕ) → All IsPayload ps
    → IsPayload p
    → n < length (frame p)
    → (wal_check mem (frames ps ++ torn n p m) ≡ (length ps, length (frames ps)))
      × (open_offset mem (frames ps ++ torn n p m) ≡ length (frames ps))
wal_check-torn mem all ps p n m vs v cut =
    let file = frames ps ++ torn n p m in
    let off = length (frames ps) in
    wal_check-frames mem all ps (torn n p m) vs (elim (Option-cases (scan_record mem file off)) [
      | inl e ↦ e
      | inr (q, e) ↦
          let bytes = All-append IsByte (frames ps) (torn n p m) (frames-IsByte ps vs) (
            All-append IsByte (take n (frame p)) (replicate m 0)
              (All-take n (frame p) (frame-IsByte p v.bytes)) (zeros-IsByte m)) in
          let (valid, at) = scan_record_sound mem file q off bytes e in
          absurd (
            torn_is_none p n m q (drop (past off q) file) cut v.small valid.small valid.some_byte
              (sym (drop-length_append off (frames ps) (torn n p m) refl) ∙ at))
    ])
