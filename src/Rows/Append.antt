-- ===== src/Rows/Append.antt =====
-- A new row takes the next id of its shard (`wo_row_insert_slots` of database/src/table.c).
use writeonce.Common.{
  ℕ, ◌+◌, ◌%◌, ◌^◌, ◌≢◌, ◌<◌, ◌≡◌, true, false, Option, none, some, ◌==◌, if◌then◌else◌, ◌⊎◌, inl,
  inr,
}
use writeonce.Wire.{Memory}
use writeonce.Engine.{Values}
use writeonce.Slots.{Row, Slots, put_row, mark_bit}
use writeonce.Slots.Sound.{IsFresh, Kept}
use writeonce.IdHash.{IdHash}
use writeonce.IdHash.Sound.{IsId, IsHash}
use writeonce.IdHash.Writes.{after_put}
use writeonce.Probing.Store.{entry}
use writeonce.Rows.{Borrow, AddError, err_none, err_oom, Indexing, RowTable, one_more}
use writeonce.Rows.Lookup.{IsTable, look}

module _ (ix : Indexing) (mem : Memory) (n : ℕ) (t : RowTable (Indexing.Index ix)) (vals : Values)
    (live : IsId t.next_id) (absent : entry t.hash t.next_id ≡ none)
    (below : t.next_id + n < 2 ^ 64) where
  -- The row that comes in.
  abbrev pub new_row : Row
  new_row = record { id = t.next_id; slots = vals }

  -- The indexes refuse the row, where the rows are read as they would stand with it.
  abbrev pub IsIndexError : AddError → Type 0
  IsIndexError e =
      (e ≢ err_none)
      × ((b : Borrow) × (x : Indexing.Index ix) × ((k : ℕ)
            → IsId k
            → b k ≡ some (if k == t.next_id then some new_row else look ix t k))
          × (Indexing.add_row ix b t.index new_row ≡ some (e, x)))

  -- An error, of the indexes or for memory, leaves every row, the next id and the count; else the next
  -- id has the row, which is counted, and the one after it in the shard is next.
  abbrev pub IsInserted : AddError ⊎ ℕ → RowTable (Indexing.Index ix) → Type 0
  IsInserted (inl e) t' =
      (IsIndexError e ⊎ ((e ≡ err_oom) × ((n : ℕ) × (mem n ≡ false))))
      × (t'.next_id ≡ t.next_id)
      × ((k : ℕ) → IsId k → look ix t' k ≡ look ix t k)
  IsInserted (inr id) t' =
      (id ≡ t.next_id)
      × (t'.next_id ≡ t.next_id + n)
      × (t'.count ≡ one_more t.count)
      × ((k : ℕ) → IsId k → look ix t' k ≡ (if k == id then some new_row else look ix t k))

  abbrev IsDone : Option ((AddError ⊎ ℕ) × RowTable (Indexing.Index ix)) → Type 0
  IsDone o =
      (r : AddError ⊎ ℕ) × (t' : RowTable (Indexing.Index ix)) × (o ≡ some (r, t'))
      × IsTable ix t'
      × IsInserted r t'

  module _ (h : IsTable ix t) (g : ℕ) (s : Slots) (kept : Kept t.slots s)
      (fresh : IsFresh s g) where
    module _ (h' : IdHash) (hashed : IsHash h')
        (entries : (k : ℕ) → IsId k → entry h' k ≡ after_put true t.hash t.next_id (g + 1) k) where
      abbrev taken : Slots
      taken = mark_bit (put_row s g new_row) g true

      -- The row as it stands when the indexes get it.
      abbrev shown : RowTable (Indexing.Index ix)
      shown = record t {
        hash = h';
        slots = taken;
        count = one_more t.count;
        next_id = (t.next_id + n) % 2 ^ 64;
      }
