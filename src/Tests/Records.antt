-- ===== src/Tests/Records.antt =====
-- Checksums, buffers, values and records on concrete bytes (database/src/wal.c).
use writeonce.Common.{
  ltb, le→ltb, ◌^◌, ◌&&◌, Bool, ℕ, ◌≤◌, ◌<◌, ◌≡◌, refl, true, false, List, [], ◌∷◌, ◌++◌, length,
  drop, All, arith,
}
use writeonce.Wire.{
  Memory, IsCapped, Wbuf, no_bytes, reader, wput, wput_u8, wput_u32, wput_u64, grown, double_until,
  le_bytes,
}
use writeonce.Wire.Integers.{IsByte}
use writeonce.Crc.{crc32}
use writeonce.Crc.Reference.{bitwise_crc, crc32-bitwise}
use writeonce.Engine.{
  scalar, owned, text, multi, Value, nil, word, db_text, db_rec, db_multi, done, slot, ClassDesc,
  enc_val, dec_val, ok, kind_byte,
}
use writeonce.Engine.Fits.{
  Fits, fits_multi, items_more, items_done, fits_text, fits_owned, slots_more, slots_done,
  fits_scalar, no_owned,
}
use writeonce.Engine.RoundTrip.{dec_val-enc_val}
use writeonce.Engine.Sound.{Sound}
use writeonce.Engine.Decoding.{dec_val-Sound}
use writeonce.Log.{frame, frames, past, open_offset, wal_check}
use writeonce.Log.Frame.{IsPayload, length-frame, scan_record-frame}
use writeonce.Log.Scan.{scan_record_sound}
use writeonce.Log.Prefix.{Intact, open_offset-Intact}
use writeonce.Log.Torn.{torn, wal_check-torn, frames-IsByte}

abbrev pub are_bytes : List ℕ → Bool
are_bytes [] = true
are_bytes (b ∷ bs) = ltb b 256 && are_bytes bs

pub are_bytes-IsByte : (bs : List ℕ) → are_bytes bs ≡ true → All IsByte bs
are_bytes-IsByte [] e = tt
are_bytes-IsByte (b ∷ bs) e = (ground arith, are_bytes-IsByte bs (ground arith))

-- An allocator that never fails.
abbrev pub plenty : Memory
plenty = λ n. true

-- Memory for each request below 2^29 bytes.
abbrev pub limited : Memory
limited = λ n. ltb n (2 ^ 29)

pub limited-IsCapped : IsCapped limited
limited-IsCapped n large = le→ltb n (2 ^ 29) large

abbrev pub greeting : List ℕ
greeting = 104 ∷ 105 ∷ 33 ∷ []

abbrev pub last_word : List ℕ
last_word = 98 ∷ 121 ∷ 101 ∷ []

pub greeting-IsPayload : IsPayload greeting
greeting-IsPayload = record {
  bytes = (omega arith, (omega arith, (omega arith, tt)));
  some_byte = omega arith;
  small = omega arith;
}

pub last_word-IsPayload : IsPayload last_word
last_word-IsPayload = record {
  bytes = (omega arith, (omega arith, (omega arith, tt)));
  some_byte = omega arith;
  small = omega arith;
}

-- The check value of CRC-32, that of "123456789".
check_value : crc32 (49 ∷ 50 ∷ 51 ∷ 52 ∷ 53 ∷ 54 ∷ 55 ∷ 56 ∷ 57 ∷ []) ≡ 0xCBF43926
unfolding crc32
check_value = refl

crc32-bitwise_example : crc32 greeting ≡ bitwise_crc greeting
crc32-bitwise_example = crc32-bitwise greeting (omega arith, (omega arith, (omega arith, tt)))

abbrev started : Wbuf
started = record { bytes = 7 ∷ 8 ∷ []; cap = 2; oom = false }

-- A class of one word and one text.
abbrev person : ClassDesc
person = record { flags = 0; kinds = scalar ∷ text ∷ [] }

abbrev classes : List ClassDesc
classes = person ∷ []

-- A list of an owned record and an absent one.
abbrev people : Value
people =
    db_multi owned (slot (db_rec 0 (slot (word 77) (slot (db_text greeting) done))) (slot nil done))

people-Fits : Fits classes multi people
people-Fits = fits_multi (omega arith) (
    items_more
      (fits_owned (omega arith) (omega arith)
        (slots_more (fits_scalar (omega arith)) (slots_more (fits_text (omega arith)) slots_done)))
      (items_more no_owned items_done))

people_good : (enc_val plenty classes no_bytes multi people).oom ≡ false
unfolding enc_val wput_u8 wput_u32 wput_u64 wput grown double_until le_bytes kind_byte
people_good = refl

people_size : length (enc_val plenty classes no_bytes multi people).bytes ≤ 40
unfolding enc_val wput_u8 wput_u32 wput_u64 wput grown double_until le_bytes kind_byte
people_size = omega arith

dec_val-enc_val_example :
    dec_val plenty classes 40 multi
      (reader ((enc_val plenty classes no_bytes multi people).bytes ++ 9 ∷ []))
    ≡ ok (people, reader (9 ∷ []))
dec_val-enc_val_example =
    dec_val-enc_val plenty (λ n. refl) classes multi people (9 ∷ []) 40 people-Fits people_good
      people_size

-- A list that promises three elements and has bytes for none.
dec_val-Sound_example :
    Sound
      (Fits classes multi)
      (reader (1 ∷ 0 ∷ 3 ∷ 0 ∷ 0 ∷ 0 ∷ 1 ∷ 2 ∷ 3 ∷ []))
      (dec_val plenty classes 10 multi (reader (1 ∷ 0 ∷ 3 ∷ 0 ∷ 0 ∷ 0 ∷ 1 ∷ 2 ∷ 3 ∷ [])))
dec_val-Sound_example =
    dec_val-Sound plenty classes 10 multi (reader (1 ∷ 0 ∷ 3 ∷ 0 ∷ 0 ∷ 0 ∷ 1 ∷ 2 ∷ 3 ∷ []))
      (
        omega arith,
        (
          omega arith,
          (
            omega arith,
            (
              omega arith,
              (omega arith, (omega arith, (omega arith, (omega arith, (omega arith, tt))))),
            ),
          ),
        ),
      )
      (omega arith)

one_record-IsByte : All IsByte (frame greeting ++ [])
one_record-IsByte = frames-IsByte (greeting ∷ []) (greeting-IsPayload, tt)

scan_record_sound_example :
    IsPayload greeting
    × (drop 0 (frame greeting ++ [])
        ≡ frame greeting ++ drop (past 0 greeting) (frame greeting ++ []))
scan_record_sound_example =
    scan_record_sound plenty (frame greeting ++ []) greeting 0 one_record-IsByte (
      scan_record-frame plenty (λ n. refl) (frame greeting ++ []) greeting [] 0 greeting-IsPayload
        refl)

open_offset-Intact_example :
    (ps : List (List ℕ)) × Intact plenty
      (frame greeting ++ [])
      0
      (open_offset plenty (frame greeting ++ []))
      ps
open_offset-Intact_example = open_offset-Intact plenty (frame greeting ++ []) one_record-IsByte

five_bytes : 5 < length (frame last_word)
five_bytes = omega (arith, length-frame last_word)

wal_check-torn_example :
    (wal_check plenty (frames (greeting ∷ []) ++ torn 5 last_word 20)
      ≡ (1, length (frames (greeting ∷ []))))
    × (open_offset plenty (frames (greeting ∷ []) ++ torn 5 last_word 20)
        ≡ length (frames (greeting ∷ [])))
wal_check-torn_example =
    wal_check-torn plenty (λ k. refl) (greeting ∷ []) last_word 5 20 (greeting-IsPayload, tt)
      last_word-IsPayload five_bytes
