-- ===== src/Replay.antt =====
-- The replay of a log into the tables at start (`apply_record`, `apply_delta` and `wo_wal_replay_ex` of
-- database/src/wal.c), for tables whose rows are resident. A table is taken as it is after its lazy
-- initialisation. An outer `none` is for a loop that does not end.
pub mod Created
pub mod Applied
pub mod Kinds
pub mod Whole
use writeonce.Common.{
  ℕ, zero, suc, ◌+◌, ◌*◌, Bool, true, false, not, ◌&&◌, ◌||◌, Option, none, some, List, [], ◌∷◌,
  length, get_or, bit_and, leb, ◌==◌, if◌then◌else◌, ◌⊎◌, inl, inr,
}
use writeonce.Wire.{Memory, Rbuf, reader, rd_u8, rd_u32, rd_u64}
use writeonce.Engine.{
  Kind, scalar, Value, Values, done, slot, ClassDesc, class_at, kinds_at, Read, ok, bad_input,
  stuck, dec_slots, dec_val,
}
use writeonce.Log.{scan_record, past}
use writeonce.Wal.{Wal, wal_insert, wal_remove, wal_update, wal_delta, wal_schema}
use writeonce.Fold.{Folded, row, refused, exhausted, wal_fold_row_at}
use writeonce.Slots.{put_row}
use writeonce.Rows.{
  Indexing, Shard, RowTable, IndexedTable, row_ptr, row_create_raw, row_raw_commit, row_remove,
}

-- The results 0, -1 and -2 of `apply_record`.
pub data RecordResult : Type 0 where
  applied corrupt volatile_class : RecordResult

-- vals[field_idx] = nv;
unfoldable pub set_value : ℕ → Value → Values → Values
set_value i v done = done
set_value zero v (slot old vs) = slot v vs
set_value (suc i) v (slot old vs) = slot old (set_value i v vs)

-- The read-only view of the log that replay lends: nothing is staged in it.
abbrev pub view : List ℕ → Wal
view file = record {
  file = file;
  off = 0;
  buf = [];
  buf_cap = 0;
  stat_batches = 0;
  stat_records = 0;
  stat_peak_batch = 0;
  stat_peak_staged = 0;
  pend = [];
  pend_cap = 0;
  repoint = [];
  repoint_cap = 0;
  schema = none;
  schema_written = false;
}

-- db->classes[cid].flags & WO_CLASSF_VOLATILE
abbrev pub is_volatile : List ClassDesc → ℕ → Bool
is_volatile cls cid = elim (class_at cls cid) [
  | none ↦ false
  | some c ↦ not (bit_and c.flags 2 == 0)
]

module _ (ix : Indexing) (mem : Memory) (sh : Shard) where
  -- A failure behind the creation of the row takes the row away.
  abbrev pub row_failed : Option (Bool × IndexedTable ix) → Option (RecordResult × IndexedTable ix)
  row_failed none = none
  row_failed (some (good, t)) = some (corrupt, t)

  abbrev pub fill : IndexedTable ix → ℕ → ℕ → Values → IndexedTable ix
  fill t id g vs = record t { slots = put_row t.slots g (record { id = id; slots = vs }) }

  abbrev pub on_commit :
      ℕ → Option (Bool × IndexedTable ix) → Option (RecordResult × IndexedTable ix)
  on_commit id none = none
  on_commit id (some (true, t)) = some (applied, t)
  on_commit id (some (false, t)) = row_failed (row_remove ix mem (row_ptr ix t) t id)

  -- The end of `apply_record` and of `apply_delta`: the row goes into the indexes.
  unfoldable pub commit_row : IndexedTable ix → ℕ → ℕ → Option (RecordResult × IndexedTable ix)
  unfolding row_raw_commit row_remove
  commit_row t id g = on_commit id (row_raw_commit ix t g)

  -- The fields of the row. Those that are decoded before one that fails are not written: the row goes.
  unfoldable pub on_slots :
      IndexedTable ix → ℕ → ℕ → Read (Values × Rbuf) → Option (RecordResult × IndexedTable ix)
  unfolding commit_row
  on_slots t id g (ok (vs, r)) =
      if length r.rest == 0
      then commit_row (fill t id g vs) id g
      else row_failed (row_remove ix mem (row_ptr ix (fill t id g vs)) (fill t id g vs) id)
  on_slots t id g bad_input = row_failed (row_remove ix mem (row_ptr ix t) t id)
  on_slots t id g stuck = none

  abbrev pub on_new :
      (ℕ → IndexedTable ix → Option (RecordResult × IndexedTable ix))
      → Option (Option ℕ × IndexedTable ix)
      → Option (RecordResult × IndexedTable ix)
  on_new next none = none
  on_new next (some (none, t)) = some (corrupt, t)
  on_new next (some (some g, t)) = next g t

  -- From `wo_row_create_raw` on.
  unfoldable pub create_row :
      IndexedTable ix → ℕ → Read (Values × Rbuf) → Option (RecordResult × IndexedTable ix)
  unfolding row_create_raw on_slots
  create_row t id x = on_new (λ g t'. on_slots t' id g x) (row_create_raw ix mem sh t id)

  abbrev pub on_old :
      (IndexedTable ix → Option (RecordResult × IndexedTable ix))
      → Option (Bool × IndexedTable ix)
      → Option (RecordResult × IndexedTable ix)
  on_old next none = none
  on_old next (some (false, t)) = some (corrupt, t)
  on_old next (some (true, t)) = next t

  -- The row must exist.
  unfoldable pub replace_row :
      IndexedTable ix
      → ℕ
      → (IndexedTable ix → Option (RecordResult × IndexedTable ix))
      → Option (RecordResult × IndexedTable ix)
  unfolding row_remove
  replace_row t id next = on_old next (row_remove ix mem (row_ptr ix t) t id)

  -- `rt` says whether the database has its runtime, db->rt.
  module _ (cls : List ClassDesc) (file : List ℕ) (rt : Bool) where
    -- The values of the row before the delta, under that of the delta.
    unfoldable pub on_folded :
        IndexedTable ix → ℕ → ℕ → ℕ → Value → Folded → Option (RecordResult × IndexedTable ix)
    unfolding replace_row row_create_raw commit_row set_value
    on_folded t cid id field nv (row got_cid got_id vals hops) =
        if got_cid == cid && got_id == id
        then replace_row t id (λ t'.
          on_new (λ g t''. commit_row (fill t'' id g (set_value field nv vals)) id g)
            (row_create_raw ix mem sh t' id))
        else some (corrupt, t)
    on_folded t cid id field nv (refused e hops) = some (corrupt, t)
    on_folded t cid id field nv exhausted = none

    unfoldable pub on_delta_value :
        IndexedTable ix
        → ℕ
        → ℕ
        → ℕ
        → ℕ
        → Read (Value × Rbuf)
        → Option (RecordResult × IndexedTable ix)
    unfolding on_folded wal_fold_row_at
    on_delta_value t cid id field back (ok (nv, r)) =
        if not (length r.rest == 0)
        then some (corrupt, t)
        else if not (mem (length (kinds_at cls cid) * 8))
        then some (corrupt, t)
        else on_folded t cid id field nv (wal_fold_row_at mem (view file) cls back)
    on_delta_value t cid id field back bad_input = some (corrupt, t)
    on_delta_value t cid id field back stuck = none

    unfoldable pub apply_delta :
        IndexedTable ix → ℕ → ℕ → Rbuf → Option (RecordResult × IndexedTable ix)
    unfolding on_delta_value dec_val
    apply_delta t cid id r =
        let (field, r1) = rd_u32 r in
        let (back, r2) = rd_u64 r1 in
        let ks = kinds_at cls cid in
        if r2.bad || leb (length ks) field
        then some (corrupt, t)
        else if not rt
        then some (corrupt, t)
        else on_delta_value t cid id field back
            (dec_val mem cls (suc (length r2.rest)) (get_or ks field scalar) r2)

    abbrev pub row_fields : ℕ → Rbuf → Read (Values × Rbuf)
    row_fields cid r = dec_slots (dec_val mem cls (suc (length r.rest))) (kinds_at cls cid) r

    abbrev pub on_remove : Option (Bool × IndexedTable ix) → Option (RecordResult × IndexedTable ix)
    on_remove = on_old (λ t. some (applied, t))

    -- From the test of the kind on, with the table of the class.
    unfoldable pub apply_kind :
        IndexedTable ix → ℕ → ℕ → ℕ → Rbuf → Option (RecordResult × IndexedTable ix)
    unfolding row_remove apply_delta replace_row create_row
    apply_kind t kind cid id r =
        if kind == wal_remove
        then on_remove (row_remove ix mem (row_ptr ix t) t id)
        else if kind == wal_delta
        then apply_delta t cid id r
        else if not (kind == wal_insert) && not (kind == wal_update)
        then some (corrupt, t)
        else if kind == wal_update
        then replace_row t id (λ t'. create_row t' id (row_fields cid r))
        else create_row t id (row_fields cid r)

    -- The tables by the number of their class.
    abbrev pub Tables : Type 0
    Tables = ℕ → IndexedTable ix

    abbrev pub put_table :
        Tables → ℕ → Option (RecordResult × IndexedTable ix) → Option (RecordResult × Tables)
    put_table db cid none = none
    put_table db cid (some (rc, t)) = some (rc, λ c. if c == cid then t else db c)

    unfoldable pub apply_record : Tables → List ℕ → Option (RecordResult × Tables)
    unfolding apply_kind
    apply_record db payload =
        let (kind, r1) = rd_u8 (reader payload) in
        let (cid, r2) = rd_u32 r1 in
        let (id, r3) = rd_u64 r2 in
        if kind == wal_schema
        then some (applied, db)
        else if r3.bad || leb (length cls) cid
        then some (corrupt, db)
        else if is_volatile cls cid
        then some (volatile_class, db)
        else put_table db cid (apply_kind (db cid) kind cid id r3)

    -- `true` for a record that counts.
    abbrev pub is_counted : List ℕ → Bool
    is_counted payload = not (get_or payload 0 0 == wal_schema)

    -- The number of the records that were applied, or the error.
    abbrev pub Replayed : Type 0
    Replayed = (RecordResult ⊎ ℕ) × Tables

    abbrev pub on_applied :
        (Tables → Option Replayed) → Option (RecordResult × Tables) → Option Replayed
    on_applied next none = none
    on_applied next (some (applied, db)) = next db
    on_applied next (some (corrupt, db)) = some (inl corrupt, db)
    on_applied next (some (volatile_class, db)) = some (inl volatile_class, db)

    -- The loop; the fuel bounds the records.
    unfoldable pub replay_loop : ℕ → ℕ → ℕ → Tables → Option Replayed
    unfolding apply_record
    replay_loop zero off count db = some (inr count, db)
    replay_loop (suc fuel) off count db = elim (scan_record mem file off) [
      | none ↦ some (inr count, db)
      | some p ↦
          on_applied (replay_loop fuel (past off p) (if is_counted p then count + 1 else count))
            (apply_record db p)
    ]

    -- A record takes 13 bytes at least, so that one round for each byte is enough.
    unfoldable pub wal_replay : Tables → Option Replayed
    unfolding replay_loop
    wal_replay db = replay_loop (length file) 0 0 db
