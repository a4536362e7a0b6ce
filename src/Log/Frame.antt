-- ===== src/Log/Frame.antt =====
-- One record: `scan_record` (database/src/wal.c) finds what was framed, and only that.
use writeonce.Common.{
  ℕ, ◌+◌, ◌^◌, ◌≤◌, ◌<◌, ◌≡◌, refl, true, some, List, [], ◌++◌, append_assoc, append-nil, length,
  drop, length-append, take-length_append, drop-length_append, drop-drop, All, le→ltb, eq→==, ne→==,
  arith,
}
use writeonce.Wire.{Memory, le_bytes}
use writeonce.Wire.Integers.{IsByte, length-le_bytes, le_value-le_bytes}
use writeonce.Crc.{crc32}
use writeonce.Crc.Detection.{crc32-lt}
use writeonce.Log.{mark, max_payload, frame, pread, field_at, check_payload, scan_record}

-- What `stage` accepts and `scan_record` gives back.
pub record IsPayload (p : List ℕ) : Type 0 where
  pub bytes : All IsByte p
  pub some_byte : 0 < length p
  pub small : length p ≤ max_payload

pub length-frame : (p : List ℕ) → length (frame p) ≡ 8 + length p + 4
unfolding frame
length-frame p = omega (
  arith,
  length-append (le_bytes 4 (length p)) (le_bytes 4 (crc32 p) ++ (p ++ le_bytes 4 mark)),
  length-append (le_bytes 4 (crc32 p)) (p ++ le_bytes 4 mark),
  length-append p (le_bytes 4 mark),
  length-le_bytes 4 (length p),
  length-le_bytes 4 (crc32 p),
  length-le_bytes 4 mark,
)

pub field_at-append :
    (i v : ℕ) (front back : List ℕ)
    → length front ≡ i
    → v < 2 ^ 32
    → field_at i (front ++ (le_bytes 4 v ++ back)) ≡ v
unfolding field_at
field_at-append i v front back e h =
    rw
      (
        drop-length_append i front (le_bytes 4 v ++ back) e,
        take-length_append 4 (le_bytes 4 v) back (length-le_bytes 4 v),
      )
      (le_value-le_bytes 4 v h)

abbrev pub header : List ℕ → List ℕ
header p = le_bytes 4 (length p) ++ (le_bytes 4 (crc32 p) ++ [])

pub length-header : (p : List ℕ) → length (header p) ≡ 8
length-header p = omega (
  arith,
  length-append (le_bytes 4 (length p)) (le_bytes 4 (crc32 p) ++ []),
  length-append (le_bytes 4 (crc32 p)) [],
  length-le_bytes 4 (length p),
  length-le_bytes 4 (crc32 p),
)

abbrev pub body : List ℕ → List ℕ
body p = p ++ (le_bytes 4 mark ++ [])

pub length-body : (p : List ℕ) → length (body p) ≡ length p + 4
length-body p = omega (
  arith,
  length-append p (le_bytes 4 mark ++ []),
  length-append (le_bytes 4 mark) [],
  length-le_bytes 4 mark,
)

pub frame_parts : (p rest : List ℕ) → frame p ++ rest ≡ header p ++ (body p ++ rest)
unfolding frame
frame_parts p rest = simp (append_assoc, append-nil)

module _ (file p rest : List ℕ) (off : ℕ) (at : drop off file ≡ frame p ++ rest) where
  pread-header : pread file 8 off ≡ header p
  unfolding pread
  pread-header =
      rw (at, frame_parts p rest)
        (take-length_append 8 (header p) (body p ++ rest) (length-header p))

  pread-body : pread file (length p + 4) (off + 8) ≡ body p
  unfolding pread
  pread-body =
      rw
        (
          ← drop-drop off 8 file,
          at,
          frame_parts p rest,
          drop-length_append 8 (header p) (body p ++ rest) (length-header p),
        )
        (take-length_append (length p + 4) (body p) rest (length-body p))

check_payload-good : (p : List ℕ) → check_payload (length p) (crc32 p) (body p) ≡ some p
unfolding check_payload
check_payload-good p =
    let closed = field_at-append (length p) mark p [] refl (omega arith) in
    rw (
      length-body p,
      eq→== (length p + 4) (length p + 4) refl,
      closed,
      take-length_append (length p) p (le_bytes 4 mark ++ []) refl,
      eq→== (crc32 p) (crc32 p) refl,
    )

-- With memory for every record, a framed payload at an offset is read back by `scan_record`, whatever
-- follows it.
pub scan_record-frame :
    (mem : Memory)
    → ((n : ℕ) → mem n ≡ true)
    → (file p rest : List ℕ) (off : ℕ) → IsPayload p
    → drop off file ≡ frame p ++ rest
    → scan_record mem file off ≡ some p
unfolding scan_record
scan_record-frame mem all file p rest off v at =
    let len = field_at-append 0 (length p) [] (le_bytes 4 (crc32 p) ++ []) refl (omega arith) in
    let crc =
      field_at-append 4 (crc32 p) (le_bytes 4 (length p)) [] (length-le_bytes 4 (length p))
        (crc32-lt p v.bytes) in
    rw
      (
        pread-header file p rest off at,
        length-header p,
        len,
        crc,
        ne→== (length p) 0 (omega arith),
        le→ltb max_payload (length p) v.small,
        all (length p + 4),
        pread-body file p rest off at,
      )
      (check_payload-good p)
