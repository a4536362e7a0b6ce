-- ===== src/Log.antt =====
-- The records of the write-ahead log on disk (database/src/wal.c): one payload between a header of
-- length and checksum and a closing mark, read back by `scan_record`, and the loops over a whole
-- log (`wo_wal_open` after its open(2), `wo_wal_check`).
-- A file is the list of its bytes. pread(2) of a regular file gives the bytes that are there.
pub mod Frame
pub mod Scan
pub mod Prefix
pub mod Torn
pub mod Corrupt
use writeonce.Common.{
  ℕ, zero, suc, ◌+◌, ◌*◌, ◌^◌, Bool, true, false, not, ◌||◌, Option, none, some, List, [], ◌∷◌,
  ◌++◌, length, take, drop, ltb, ◌==◌, if◌then◌else◌,
}
use writeonce.Wire.{Memory, le_bytes, le_value}
use writeonce.Crc.{crc32}

-- "WOL1", WO_WAL_MARK.
abbrev pub mark : ℕ
mark = 0x574F4C31

abbrev pub max_payload : ℕ
max_payload = 64 * 2 ^ 20

-- The bytes that `stage` makes of a payload.
unfoldable pub frame : List ℕ → List ℕ
frame p = le_bytes 4 (length p) ++ (le_bytes 4 (crc32 p) ++ (p ++ le_bytes 4 mark))

abbrev pub frames : List (List ℕ) → List ℕ
frames [] = []
frames (p ∷ ps) = frame p ++ frames ps

unfoldable pub pread : List ℕ → ℕ → ℕ → List ℕ
pread file n off = take n (drop off file)

-- memcpy(&v, buf + i, 4)
unfoldable pub field_at : ℕ → List ℕ → ℕ
field_at i buf = le_value (take 4 (drop i buf))

-- The tests on what was read behind the header.
unfoldable pub check_payload : ℕ → ℕ → List ℕ → Option (List ℕ)
check_payload len crc payload =
    if not (length payload == len + 4)
    then none
    else if not (field_at len payload == mark) || not (crc32 (take len payload) == crc)
    then none
    else some (take len payload)

-- `some payload` for the result 0, `none` for the result 1.
unfoldable pub scan_record : Memory → List ℕ → ℕ → Option (List ℕ)
scan_record mem file off =
    let hdr = pread file 8 off in
    let len = field_at 0 hdr in
    let crc = field_at 4 hdr in
    if not (length hdr == 8)
    then none
    else if len == 0 || ltb max_payload len
    then none
    else if not (mem (len + 4))
    then none
    else check_payload len crc (pread file (len + 4) (off + 8))

-- off += 8 + len + 4
abbrev pub past : ℕ → List ℕ → ℕ
past off p = off + (8 + length p + 4)

-- The loop of `wo_wal_open`: the offset behind the intact prefix. The fuel bounds the records.
unfoldable pub intact_end : Memory → ℕ → List ℕ → ℕ → ℕ
intact_end mem zero file off = off
intact_end mem (suc fuel) file off = elim (scan_record mem file off) [
  | none ↦ off
  | some p ↦ intact_end mem fuel file (past off p)
]

-- The loop of `wo_wal_check`: the records and the intact bytes.
unfoldable pub check_loop : Memory → ℕ → List ℕ → ℕ → ℕ → ℕ × ℕ
check_loop mem zero file off records = (records, off)
check_loop mem (suc fuel) file off records = elim (scan_record mem file off) [
  | none ↦ (records, off)
  | some p ↦ check_loop mem fuel file (past off p) (records + 1)
]

-- The payloads that the loop of `wo_wal_replay_ex` hands to `apply_record`, in their order, as long as
-- it applies every one without an error.
unfoldable pub record_loop : Memory → ℕ → List ℕ → ℕ → List (List ℕ)
record_loop mem zero file off = []
record_loop mem (suc fuel) file off = elim (scan_record mem file off) [
  | none ↦ []
  | some p ↦ p ∷ record_loop mem fuel file (past off p)
]

-- A record takes 13 bytes at least, so that one round for each byte is enough.
unfoldable pub open_offset : Memory → List ℕ → ℕ
open_offset mem file = intact_end mem (length file) file 0

unfoldable pub wal_check : Memory → List ℕ → ℕ × ℕ
wal_check mem file = check_loop mem (length file) file 0 0

unfoldable pub log_records : Memory → List ℕ → List (List ℕ)
log_records mem file = record_loop mem (length file) file 0
