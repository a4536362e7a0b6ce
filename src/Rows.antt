-- ===== src/Rows.antt =====
-- The rows of a table (database/src/table.c): the id hash names the slot of a row. Of `db_table` the
-- record holds what the rows need; `keys` is the class's flag WO_CLASSF_RESIDENT_KEYS.
-- An outer `none` is for a loop that does not end.
pub mod Sound
pub mod Lookup
pub mod Insert
pub mod Append
pub mod Remove
use writeonce.Common.{
  ℕ, zero, suc, ◌+◌, ◌-◌, ◌*◌, ◌%◌, ◌^◌, Bool, true, false, not, ◌&&◌, Option, none, some, leb,
  ◌==◌, if◌then◌else◌, ◌≡◌, ◌⊎◌, inl, inr,
}
use writeonce.Wire.{Memory}
use writeonce.Engine.{Values}
use writeonce.Slots.{
  Row, Slots, row_at, bit_at, slot_alloc, put_row, mark_bit, recycle, recycle_in_room,
}
use writeonce.IdHash.{IdHash, hput, hget, hdel}

-- How a row is read while an index is kept.
abbrev pub Borrow : Type 0
Borrow = ℕ → Option (Option Row)

-- DB_ERR_NONE, DB_ERR_OOM, DB_ERR_UNIQUE
pub data AddError : Type 0 where
  err_none err_oom err_unique : AddError

-- The secondary indexes, as the rows use them: `idx_add_row` and `idx_remove_row`.
pub record Indexing : Type 1 where
  pub Index : Type 0
  pub IsIndex : Index → Type 0
  pub add_row : Borrow → Index → Row → Option (AddError × Index)
  pub remove_row : Index → Row → Option Index
  pub add_ends :
      (b : Borrow)
      → ((id : ℕ) → (o : Option Row) × (b id ≡ some o))
      → (x : Index) (r : Row) → IsIndex x
      → (e : AddError) × (x' : Index) × (add_row b x r ≡ some (e, x')) × IsIndex x'
  pub remove_ends :
      (x : Index) (r : Row) → IsIndex x → (x' : Index) × (remove_row x r ≡ some x') × IsIndex x'

-- The part of a database that hands out ids: shard `shard` of `nshards`.
pub record Shard : Type 0 where
  pub shard : ℕ
  pub nshards : ℕ

pub record RowTable (Index : Type 0) : Type 0 where
  pub keys : Bool
  pub row_size : ℕ
  pub zeros : Values
  pub slots : Slots
  pub next_id : ℕ
  pub count : ℕ
  pub hash : IdHash
  pub index : Index

-- The counter of live rows, in 64 bits.
abbrev pub one_more : ℕ → ℕ
one_more c = (c + 1) % 2 ^ 64

abbrev pub one_less : ℕ → ℕ
one_less c = (c + (2 ^ 64 - 1)) % 2 ^ 64

module _ (ix : Indexing) where
  open ix use {Index, add_row, remove_row}

  abbrev pub IndexedTable : Type 0
  IndexedTable = RowTable Index

  -- The row of a value of the hash.
  unfoldable pub slot_found : IndexedTable → ℕ → Option Row
  slot_found t v =
      if v == 0
      then none
      else if t.keys && not (bit_at t.slots (v - 1))
      then none
      else some (row_at t.slots (v - 1))

  unfoldable pub row_ptr : IndexedTable → ℕ → Option (Option Row)
  unfolding slot_found
  row_ptr t id = elim (hget t.hash id) [ none ↦ none | some v ↦ some (slot_found t v) ]

  -- if ((id - 1) % db->nshards == db->shard && id >= t->next_id)
  unfoldable pub moved_id : Shard → ℕ → ℕ → ℕ
  moved_id sh next id =
      if (id - 1) % sh.nshards == sh.shard && leb next id then (id + sh.nshards) % 2 ^ 64 else next

  unfoldable pub enter_raw :
      Shard → ℕ → ℕ → IndexedTable → Option (Bool × IdHash) → Option (Option ℕ × IndexedTable)
  unfolding moved_id
  enter_raw sh id g t none = none
  enter_raw sh id g t (some (false, h)) = some (none, record t { hash = h })
  enter_raw sh id g t (some (true, h)) = some (
    some g,
    record t {
      hash = h;
      slots = mark_bit t.slots g true;
      count = one_more t.count;
      next_id = moved_id sh t.next_id id;
    },
  )

  unfoldable pub place_raw :
      Memory → Shard → ℕ → IndexedTable → Option ℕ × Slots → Option (Option ℕ × IndexedTable)
  unfolding enter_raw
  place_raw mem sh id t (none, s) = some (none, record t { slots = s })
  place_raw mem sh id t (some g, s) =
      enter_raw sh id g (record t { slots = put_row s g (record { id = id; slots = t.zeros }) })
        (hput mem t.hash id (g + 1))

  -- The inner result is the slot of the new row, or NULL.
  unfoldable pub row_create_raw :
      Memory → Shard → IndexedTable → ℕ → Option (Option ℕ × IndexedTable)
  unfolding place_raw
  row_create_raw mem sh t id = if id == 0 then some (none, t) else elim (hget t.hash id) [
    | none ↦ none
    | some v ↦
        if not (v == 0)
        then some (none, t)
        else place_raw mem sh id t (slot_alloc mem t.row_size t.slots)
  ]

  abbrev pub raw_committed : IndexedTable → Option (AddError × Index) → Option (Bool × IndexedTable)
  raw_committed t none = none
  raw_committed t (some (err_none, x)) = some (true, record t { index = x })
  raw_committed t (some (err_oom, x)) = some (false, record t { index = x })
  raw_committed t (some (err_unique, x)) = some (false, record t { index = x })

  -- `true` for the result 0.
  unfoldable pub row_raw_commit : IndexedTable → ℕ → Option (Bool × IndexedTable)
  unfolding row_ptr
  row_raw_commit t g = raw_committed t (add_row (row_ptr t) t.index (row_at t.slots g))

  -- An insertion that an index refuses is undone. `old` is the table before it took an id.
  unfoldable pub undo_insert :
      AddError → ℕ → ℕ → ℕ → IndexedTable → Option IdHash → Option ((AddError ⊎ ℕ) × IndexedTable)
  undo_insert e id g n t none = none
  undo_insert e id g n t (some h) = some (
    inl e,
    record t {
      slots = recycle_in_room (mark_bit t.slots g false) g;
      hash = h;
      count = one_less t.count;
      next_id = (t.next_id + (2 ^ 64 - n)) % 2 ^ 64;
    },
  )

  unfoldable pub index_insert :
      ℕ → ℕ → ℕ → IndexedTable → Option (AddError × Index) → Option ((AddError ⊎ ℕ) × IndexedTable)
  unfolding undo_insert
  index_insert id g n t none = none
  index_insert id g n t (some (err_none, x)) = some (inr id, record t { index = x })
  index_insert id g n t (some (err_oom, x)) =
      undo_insert err_oom id g n (record t { index = x }) (hdel t.hash id)
  index_insert id g n t (some (err_unique, x)) =
      undo_insert err_unique id g n (record t { index = x }) (hdel t.hash id)

  unfoldable pub enter_insert :
      ℕ → ℕ → ℕ → IndexedTable → Option (Bool × IdHash) → Option ((AddError ⊎ ℕ) × IndexedTable)
  unfolding index_insert row_ptr
  enter_insert id g n t none = none
  enter_insert id g n t (some (false, h)) = some (
    inl err_oom,
    record t {
      hash = h;
      slots = recycle_in_room t.slots g;
      next_id = (t.next_id + (2 ^ 64 - n)) % 2 ^ 64;
    },
  )
  enter_insert id g n t (some (true, h)) =
      let t' : IndexedTable = record t {
        hash = h;
        slots = mark_bit t.slots g true;
        count = one_more t.count;
      } in
      index_insert id g n t' (add_row (row_ptr t') t'.index (row_at t'.slots g))

  unfoldable pub place_insert :
      Memory → ℕ → Values → IndexedTable → Option ℕ × Slots → Option ((AddError ⊎ ℕ) × IndexedTable)
  unfolding enter_insert
  place_insert mem n vals t (none, s) = some (inl err_oom, record t { slots = s })
  place_insert mem n vals t (some g, s) =
      enter_insert t.next_id g n
        (record t {
          slots = put_row s g (record { id = t.next_id; slots = vals });
          next_id = (t.next_id + n) % 2 ^ 64;
        })
        (hput mem t.hash t.next_id (g + 1))

  -- The error, or the id of the new row.
  unfoldable pub row_insert_slots :
      Memory → Shard → IndexedTable → Values → Option ((AddError ⊎ ℕ) × IndexedTable)
  unfolding place_insert
  row_insert_slots mem sh t vals =
      place_insert mem sh.nshards vals t (slot_alloc mem t.row_size t.slots)

  abbrev pub unhashed : IndexedTable → Option IdHash → Option (Bool × IndexedTable)
  unhashed t none = none
  unhashed t (some h) = some (true, record t { hash = h; count = one_less t.count })

  -- Of a row in the log, the indexes and the hash forget.
  unfoldable pub remove_keys : IndexedTable → ℕ → Option (Option Row) → Option (Bool × IndexedTable)
  remove_keys t id none = none
  remove_keys t id (some none) = some (false, t)
  remove_keys t id (some (some r)) = elim (remove_row t.index r) [
    | none ↦ none
    | some x ↦ unhashed (record t { index = x }) (hdel t.hash id)
  ]

  -- Of a row in a slab, the slot is given back too.
  unfoldable pub remove_slot : Memory → IndexedTable → ℕ → ℕ → Option (Bool × IndexedTable)
  remove_slot mem t id g = elim (remove_row t.index (row_at t.slots g)) [
    | none ↦ none
    | some x ↦
        unhashed (record t { index = x; slots = recycle mem (mark_bit t.slots g false) g })
          (hdel t.hash id)
  ]

  -- `borrow` reads a row of a keys-resident table from the log. `true` for the result 0.
  unfoldable pub row_remove : Memory → Borrow → IndexedTable → ℕ → Option (Bool × IndexedTable)
  unfolding remove_keys remove_slot
  row_remove mem borrow t id = elim (hget t.hash id) [
    | none ↦ none
    | some v ↦
        if v == 0
        then some (false, t)
        else if t.keys
        then remove_keys t id (borrow id)
        else remove_slot mem t id (v - 1)
  ]

  abbrev pub dropped :
      Memory → IndexedTable → ℕ → Option (Bool × IdHash) → Option (Bool × IndexedTable)
  dropped mem t g none = none
  dropped mem t g (some (false, h)) = some (false, record t { hash = h })
  dropped mem t g (some (true, h)) =
      some (true, record t { hash = h; slots = recycle mem t.slots g })

  -- The row goes on in the log: its slot is given back, and the hash names the offset.
  unfoldable pub row_drop_payload : Memory → IndexedTable → ℕ → ℕ → Option (Bool × IndexedTable)
  row_drop_payload mem t id wal_off = elim (hget t.hash id) [
    | none ↦ none
    | some v ↦
        if v == 0
        then some (false, t)
        else dropped mem (record t { slots = mark_bit t.slots (v - 1) false }) (v - 1)
            (hput mem t.hash id ((wal_off + 1) % 2 ^ 64))
  ]
