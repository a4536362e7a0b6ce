-- ===== src/Log/Scan.antt =====
-- What `scan_record` (database/src/wal.c) has established when it accepts.
use writeonce.Common.{
  ℕ, ◌+◌, ◌≤◌, ◌<◌, ◌≡◌, ◌∙◌, sym, ap, ap₂, true, some, List, [], ◌++◌, append-nil, length, take,
  drop, length-take, length-drop, take-append-drop, take-length_append, drop-drop, All, arith,
}
use writeonce.Wire.{Memory, le_bytes}
use writeonce.Wire.Integers.{IsByte, le_bytes-le_value}
use writeonce.Engine.Sound.{All-take, All-drop}
use writeonce.Crc.{crc32}
use writeonce.Log.{mark, max_payload, frame, pread, field_at, check_payload, scan_record, past}
use writeonce.Log.Frame.{IsPayload, header, body, frame_parts}

-- The three fields that a scan compares, as equations.
pub record Passed (mem : Memory) (file p : List ℕ) (off : ℕ) : Type 0 where
  pub sized : length (pread file 8 off) ≡ 8
  pub len_read : field_at 0 (pread file 8 off) ≡ length p
  pub crc_read : field_at 4 (pread file 8 off) ≡ crc32 p
  pub nonzero : 0 < length p
  pub capped : length p ≤ max_payload
  pub granted : mem (length p + 4) ≡ true
  pub filled : length (pread file (length p + 4) (off + 8)) ≡ length p + 4
  pub marked : field_at (length p) (pread file (length p + 4) (off + 8)) ≡ mark
  pub payload : take (length p) (pread file (length p + 4) (off + 8)) ≡ p

check_payload-passed :
    (len crc : ℕ) (buf p : List ℕ)
    → check_payload len crc buf ≡ some p
    → (length buf ≡ len + 4) × (field_at len buf ≡ mark) × (crc32 p ≡ crc) × (take len buf ≡ p)
unfolding check_payload
check_payload-passed len crc buf p e = ground arith

scan_parts :
    (mem : Memory) (file p : List ℕ) (off : ℕ)
    → scan_record mem file off ≡ some p
    → let hdr = pread file 8 off in
      let len = field_at 0 hdr in
      (length hdr ≡ 8)
      × (0 < len)
      × (len ≤ max_payload)
      × (mem (len + 4) ≡ true)
      × (check_payload len (field_at 4 hdr) (pread file (len + 4) (off + 8)) ≡ some p)
unfolding scan_record
scan_parts mem file p off e = ground arith

pub scan_record-Passed :
    (mem : Memory) (file p : List ℕ) (off : ℕ)
    → scan_record mem file off ≡ some p
    → Passed mem file p off
scan_record-Passed mem file p off e =
    let hdr = pread file 8 off in
    let len = field_at 0 hdr in
    let buf = pread file (len + 4) (off + 8) in
    let parts = scan_parts mem file p off e in
    let passed = check_payload-passed len (field_at 4 hdr) buf p parts.4 in
    let same : len ≡ length p =
      omega (arith, ap (λ (q : List ℕ). length q) passed.3, length-take len buf) in
    let parts' = rw same at parts in
    let passed' = rw same at passed in
    record {
      sized = parts'.0;
      len_read = same;
      crc_read = sym passed'.2;
      nonzero = parts'.1;
      capped = parts'.2;
      granted = parts'.3;
      filled = passed'.0;
      marked = passed'.1;
      payload = passed'.3;
    }

-- The bytes of a 4-byte field, from its value.
field_bytes :
    (i v : ℕ) (buf : List ℕ)
    → All IsByte buf
    → i + 4 ≤ length buf
    → field_at i buf ≡ v
    → take 4 (drop i buf) ≡ le_bytes 4 v
unfolding field_at
field_bytes i v buf h room e =
    let part = take 4 (drop i buf) in
    let four : length part ≡ 4 = omega (arith, length-take 4 (drop i buf), length-drop i buf) in
    let bytes = All-take 4 (drop i buf) (All-drop i buf h) in
    sym (rw (four, e) at (le_bytes-le_value part bytes))

-- A cut in two.
split_at : (n : ℕ) (bs p q : List ℕ) → take n bs ≡ p → drop n bs ≡ q → bs ≡ p ++ q
split_at n bs p q e f = sym (take-append-drop n bs) ∙ ap₂ (λ x y. x ++ y) e f

take_all : (n : ℕ) (bs : List ℕ) → length bs ≡ n → take n bs ≡ bs
take_all n bs e = rw (append-nil bs) at (take-length_append n bs [] e)

-- A field that ends the buffer.
last_field :
    (i v : ℕ) (buf : List ℕ)
    → All IsByte buf
    → length buf ≡ i + 4
    → field_at i buf ≡ v
    → drop i buf ≡ le_bytes 4 v
last_field i v buf h full e =
    sym (take_all 4 (drop i buf) (omega (arith, length-drop i buf)))
    ∙ field_bytes i v buf h (omega arith) e

pread-IsByte : (file : List ℕ) (n off : ℕ) → All IsByte file → All IsByte (pread file n off)
unfolding pread
pread-IsByte file n off h = All-take n (drop off file) (All-drop off file h)

-- A read and what lies behind it.
pread-append : (file : List ℕ) (n off : ℕ) → drop off file ≡ pread file n off ++ drop (off + n) file
unfolding pread
pread-append file n off =
    sym (take-append-drop n (drop off file))
    ∙ ap (λ t. take n (drop off file) ++ t) (drop-drop off n file)

-- In a file of bytes, what `scan_record` accepts at an offset is a payload of bytes, not empty and
-- within the limit, and it stands there as its frame, byte for byte.
pub scan_record_sound :
    (mem : Memory) (file p : List ℕ) (off : ℕ)
    → All IsByte file
    → scan_record mem file off ≡ some p
    → IsPayload p × (drop off file ≡ frame p ++ drop (past off p) file)
scan_record_sound mem file p off h e =
    let passed = scan_record-Passed mem file p off e in
    let hdr = pread file 8 off in
    let buf = pread file (length p + 4) (off + 8) in
    let hdr_bytes = pread-IsByte file 8 off h in
    let buf_bytes = pread-IsByte file (length p + 4) (off + 8) h in
    let hdr_is : hdr ≡ header p =
      split_at 4 hdr (le_bytes 4 (length p)) (le_bytes 4 (crc32 p) ++ [])
        (field_bytes 0 (length p) hdr hdr_bytes (omega (arith, passed.sized)) passed.len_read)
        (last_field 4 (crc32 p) hdr hdr_bytes passed.sized passed.crc_read
          ∙ sym (append-nil (le_bytes 4 (crc32 p)))) in
    let buf_is : buf ≡ body p = split_at (length p) buf p (le_bytes 4 mark ++ []) passed.payload (
      last_field (length p) mark buf buf_bytes passed.filled passed.marked
      ∙ sym (append-nil (le_bytes 4 mark))) in
    let behind : off + 8 + (length p + 4) ≡ past off p = omega arith in
    (
      record {
        bytes = rw passed.payload at (All-take (length p) buf buf_bytes);
        some_byte = passed.nonzero;
        small = passed.capped;
      },
      pread-append file 8 off
          ∙ ap₂ (λ x y. x ++ y) hdr_is
              (pread-append file (length p + 4) (off + 8)
                ∙ ap₂ (λ x k. x ++ drop k file) buf_is behind)
          ∙ sym (frame_parts p (drop (past off p) file)),
    )
