-- ===== src/Wal.antt =====
-- The write-ahead log as its owner sees it (`wo_wal` of database/src/wal.h, and the functions of
-- database/src/wal.c that stage records and make them durable).
-- The file behind `fd` is a field. Not in the record: the path and the preallocation, which the
-- functions below do not read, and the figures of compaction.
pub mod Staging
pub mod Commit
pub mod Positions
pub mod Recovery
pub mod Repoint
pub mod Fatal
use writeonce.Common.{
  ℕ, zero, suc, ◌+◌, ◌-◌, ◌*◌, Bool, true, false, not, ◌||◌, ◌&&◌, Option, none, some, List, [],
  ◌∷◌, ◌++◌, length, get_elem?, take, drop, replicate, ltb, ◌==◌, if◌then◌else◌, max,
}
use writeonce.Wire.{Memory, Wbuf, no_bytes, grown, wput, wput_u8, wput_u32, wput_u64}
use writeonce.Crc.{crc32}
use writeonce.Engine.{Value, Values, ClassDesc, kinds_at, class_at, enc_val, enc_slots, Kind}
use writeonce.Log.{mark}

-- struct wo_wal_pend
pub record Pend : Type 0 where
  pub cid : ℕ
  pub id : ℕ
  pub off : ℕ

pub record Wal : Type 0 where
  pub file : List ℕ
  pub off : ℕ
  pub buf : List ℕ
  pub buf_cap : ℕ
  pub stat_batches : ℕ
  pub stat_records : ℕ
  pub stat_peak_batch : ℕ
  pub stat_peak_staged : ℕ
  pub pend : List Pend
  pub pend_cap : ℕ
  pub repoint : List Pend
  pub repoint_cap : ℕ
  pub schema : Option (List ℕ)
  pub schema_written : Bool

-- WO_WAL_INSERT to WO_WAL_SCHEMA.
abbrev pub wal_insert : ℕ
wal_insert = 1

abbrev pub wal_remove : ℕ
wal_remove = 2

abbrev pub wal_update : ℕ
wal_update = 3

abbrev pub wal_delta : ℕ
wal_delta = 4

abbrev pub wal_schema : ℕ
wal_schema = 5

-- `rec` in `stage`: the framed payload, in a buffer of its own.
unfoldable pub framed : Memory → List ℕ → Wbuf
framed mem p =
    wput_u32 mem (wput mem (wput_u32 mem (wput_u32 mem no_bytes (length p)) (crc32 p)) p) mark

-- `stage` behind its call of `stage_schema_head`: `true` for the result 0.
unfoldable pub stage_frame : Memory → Wal → List ℕ → Bool × Wal
stage_frame mem w p =
    let rec = framed mem p in
    let need = length w.buf + length rec.bytes in
    let nc = grown 4096 w.buf_cap need in
    if rec.oom
    then (false, w)
    else if ltb w.buf_cap need
    then if mem nc then (true, record w { buf = w.buf ++ rec.bytes; buf_cap = nc }) else (false, w)
    else (true, record w { buf = w.buf ++ rec.bytes })

-- The schema payload goes into a buffer, and `stage` is called on it. That call finds
-- `schema_written` set, so that its own call of `stage_schema_head` does nothing.
unfoldable pub stage_head : Memory → Wal → List ℕ → Bool × Wal
stage_head mem w schema =
    let sp = wput mem no_bytes schema in if sp.oom then (false, w) else stage_frame mem w sp.bytes

-- `stage_schema_head`, on the schema that is set.
unfoldable pub head_for : Memory → Wal → Option (List ℕ) → Bool × Wal
head_for mem w none = (true, w)
head_for mem w (some schema) =
    let flagged = record w { schema_written = true } in
    if w.schema_written
    then (true, w)
    else if not (w.off == 0) || not (length w.buf == 0)
    then (true, flagged)
    else stage_head mem flagged schema

unfoldable pub stage_schema_head : Memory → Wal → Bool × Wal
unfolding head_for
stage_schema_head mem w = head_for mem w w.schema

unfoldable pub stage : Memory → Wal → Wbuf → Bool × Wal
stage mem w payload =
    let (good, headed) = stage_schema_head mem w in
    if payload.oom
    then (false, w)
    else if good
    then stage_frame mem headed payload.bytes
    else (false, headed)

-- `none` where the source ends the process by `wo_wal_stage_fatal`.
unfoldable pub wal_next_offset : Memory → Wal → Option ℕ × Wal
wal_next_offset mem w =
    let (good, headed) = stage_schema_head mem w in
    if good then (some (headed.off + length headed.buf), headed) else (none, headed)

-- Kind byte, class and row id: the start of every record but the schema.
unfoldable pub record_head : Memory → ℕ → ℕ → ℕ → Wbuf
record_head mem kind cid id = wput_u64 mem (wput_u32 mem (wput_u8 mem no_bytes kind) cid) id

-- A row comes as its slots, or as the NULL of a failed lookup.
unfoldable pub append_row : Memory → List ClassDesc → ℕ → Wal → ℕ → ℕ → Option Values → Bool × Wal
append_row mem cls kind w cid id none = (false, w)
append_row mem cls kind w cid id (some slots) =
    stage mem w (enc_slots mem cls (record_head mem kind cid id) (kinds_at cls cid) slots)

unfoldable pub wal_append_insert :
    Memory → List ClassDesc → Wal → ℕ → ℕ → Option Values → Bool × Wal
wal_append_insert mem cls w cid id row = append_row mem cls wal_insert w cid id row

unfoldable pub wal_append_update :
    Memory → List ClassDesc → Wal → ℕ → ℕ → Option Values → Bool × Wal
wal_append_update mem cls w cid id row = append_row mem cls wal_update w cid id row

unfoldable pub wal_append_row_image :
    Memory → List ClassDesc → Wal → ℕ → ℕ → Option Values → Bool × Wal
wal_append_row_image mem cls w cid id row = append_row mem cls wal_update w cid id row

-- `kind` is the kind of the field.
unfoldable pub wal_append_delta :
    Memory → List ClassDesc → Wal → ℕ → ℕ → ℕ → ℕ → Kind → Value → Bool × Wal
wal_append_delta mem cls w cid id field back_off kind v = stage mem w (
    enc_val mem cls (wput_u64 mem (wput_u32 mem (record_head mem wal_delta cid id) field) back_off)
      kind v)

unfoldable pub wal_append_remove : Memory → Wal → ℕ → ℕ → Bool × Wal
wal_append_remove mem w cid id = stage mem w (record_head mem wal_remove cid id)

-- One answer of pwrite(2): it wrote some of the bytes, it was interrupted, or it failed.
pub data Answer : Type 0 where
  wrote : ℕ → Answer
  interrupted : Answer
  failed : Answer

-- `waiting`: no further answer came, as in a crash during the call.
pub data Outcome : Type 0 where
  written : Outcome
  waiting : Outcome
  err_write : Outcome
  err_sync : Outcome

-- A write at a position, with zeros in a gap behind the end of the file.
unfoldable pub overwrite : List ℕ → ℕ → List ℕ → List ℕ
overwrite file pos bs =
    take pos file ++ (replicate (pos - length file) 0 ++ (bs ++ drop (pos + length bs) file))

-- The loop of `wo_wal_commit` from `at` on.
unfoldable pub write_loop : List Answer → Wal → ℕ → Outcome × Wal
write_loop [] w at = if ltb at (length w.buf) then (waiting, w) else (written, w)
write_loop (wrote n ∷ more) w at =
    let chunk = take n (drop at w.buf) in
    let next =
      write_loop more (record w { file = overwrite w.file (w.off + at) chunk })
        (at + length chunk) in
    if ltb at (length w.buf) then next else (written, w)
write_loop (interrupted ∷ more) w at =
    let next = write_loop more w at in if ltb at (length w.buf) then next else (written, w)
write_loop (failed ∷ more) w at = if ltb at (length w.buf) then (err_write, w) else (written, w)

-- What follows the loop: fdatasync, and the acknowledgement.
unfoldable pub after_write : Bool → Outcome × Wal → Outcome × Wal
after_write synced (written, w) =
    if synced then (written, record w { off = w.off + length w.buf; buf = [] }) else (err_sync, w)
after_write synced (o, w) = (o, w)

unfoldable pub wal_commit : List Answer → Bool → Wal → Outcome × Wal
wal_commit answers synced w =
    if length w.buf == 0
    then (written, w)
    else after_write synced (
        write_loop answers (record w { stat_peak_staged = max w.stat_peak_staged (length w.buf) })
          0)

-- The barrier is counted if it happened; `none` where the process ends by `wal_die`.
unfoldable pub count_batch : Bool → ℕ → Outcome × Wal → Option Wal
count_batch staged nrec (written, w) = some (
    if staged
    then record w {
      stat_batches = w.stat_batches + 1;
      stat_records = w.stat_records + nrec;
      stat_peak_batch = max w.stat_peak_batch nrec;
    }
    else w)
count_batch staged nrec (_, w) = none

unfoldable pub wal_commit_fatal : List Answer → Bool → Wal → ℕ → Option Wal
wal_commit_fatal answers synced w nrec =
    count_batch (not (length w.buf == 0)) nrec (wal_commit answers synced w)

-- `wo_wal_pend_drop` and `wo_wal_pend_repoint`, on their lists.
unfoldable pub push_pend : Memory → List Pend → ℕ → Pend → Option (List Pend × ℕ)
push_pend mem l capacity p =
    let wider = if capacity == 0 then 16 else capacity * 2 in
    if length l == capacity
    then if mem (wider * 24) then some (l ++ p ∷ [], wider) else none
    else some (l ++ p ∷ [], capacity)

unfoldable pub wal_pend_drop : Memory → Wal → Pend → Bool × Wal
wal_pend_drop mem w p = elim (push_pend mem w.pend w.pend_cap p) [
  | none ↦ (false, w)
  | some (l, c) ↦ (true, record w { pend = l; pend_cap = c })
]

unfoldable pub wal_pend_repoint : Memory → Wal → Pend → Bool × Wal
wal_pend_repoint mem w p = elim (push_pend mem w.repoint w.repoint_cap p) [
  | none ↦ (false, w)
  | some (l, c) ↦ (true, record w { repoint = l; repoint_cap = c })
]

-- for (i = repoint_len; i > 0; i--): the last entry that fits, its offset plus one, or 0.
unfoldable pub latest : List Pend → ℕ → ℕ → ℕ → ℕ
latest l cid id zero = 0
latest l cid id (suc i) =
    let earlier = latest l cid id i in
    elim (get_elem? l i) [
      | none ↦ 0
      | some p ↦ if p.cid == cid && p.id == id then p.off + 1 else earlier
    ]

unfoldable pub wal_repoint_offset1 : Wal → ℕ → ℕ → ℕ
wal_repoint_offset1 w cid id = latest w.repoint cid id (length w.repoint)
