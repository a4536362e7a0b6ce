-- ===== src/Tests/Rows.antt =====
-- A table with one row, and its index (database/src/table.c).
use writeonce.Common.{
  ℕ, ◌≡◌, refl, ◌∙◌, sym, ap, subst, Bool, true, false, Option, none, some, List, [], ◌∷◌, set,
  replicate, ◌==◌, if◌then◌else◌, eq→==, ne→==, eq-cases, inl, inr, arith,
}
use writeonce.Engine.{Kind, scalar, Value, word, done, slot}
use writeonce.Slots.{Row, no_row, Slots, no_slots}
use writeonce.Slots.Sound.{IsSlots}
use writeonce.Probing.{vacant, empty_table, put_at, probe, probe_vacant, rehash}
use writeonce.Probing.Store.{entry, fresh}
use writeonce.Probing.Entries.{assoc}
use writeonce.IdHash.{IdHash, hmix, not_copied, hgrow, put_grown, hput}
use writeonce.IdHash.Sound.{IsId, IsHash}
use writeonce.IdHash.Writes.{hput-entry, after_put}
use writeonce.Rows.{err_none, Borrow, Indexing, Shard, RowTable, row_ptr}
use writeonce.Rows.Sound.{IsPlacedAt, IsStore, look_in}
use writeonce.Rows.Lookup.{IsTable, row_ptr-look}
use writeonce.Hashing.{idx_hash, idx_loop, column_value}
use writeonce.Indexes.{
  DbIndex, no_hash, idx_bucket, first_buckets, more_buckets, make_bucket, append_id, idx_add_row,
  idx_remove_row,
}
use writeonce.Indexes.Sound.{IsIndexed}
use writeonce.Indexes.Unique.{Ends}
use writeonce.Indexes.Whole.{Each}
use writeonce.Indexes.Undo.{IsSameBag, idx_remove_row-idx_add_row}
use writeonce.Indexes.Interface.{db_indexes}
use writeonce.Tests.Records.{limited, limited-IsCapped}

-- The class has one word in a row, and a unique index on it.
abbrev pub words : ℕ → Kind
words i = scalar

abbrev pub nowhere : Value → ℕ
nowhere v = 0

abbrev pub indexing : Indexing
indexing = db_indexes nowhere words limited limited-IsCapped

abbrev pub new_index : DbIndex
new_index = record { unique = true; cols = 0 ∷ []; table = empty_table; lists = [] }

abbrev pub lone_shard : Shard
lone_shard = record { shard = 0; nshards = 1 }

abbrev row_seven : Row
row_seven = record { id = 7; slots = slot (word 9) done }

-- The index with the id of the row in the bucket of its hash.
abbrev index_seven : DbIndex
index_seven = record {
  unique = true;
  cols = 0 ∷ [];
  table = record {
    buckets = set (replicate 64 vacant) 49 (record { key = 3501596297465044081; val = 0 });
    len = 1;
  };
  lists = record { hash = 3501596297465044081; ids = 7 ∷ []; cap = 4 } ∷ [];
}

abbrev hash_seven : IdHash
hash_seven = record {
  buckets = set (replicate 64 vacant) 23 (record { key = 7; val = 1 });
  len = 1;
}

abbrev slots_seven : Slots
slots_seven = record {
  rows = row_seven ∷ replicate 255 no_row;
  bits = true ∷ replicate 255 false;
  slab_cap = 4;
  free_slots = [];
  free_cap = 0;
}

-- A table without rows, and one with the row 7.
abbrev pub no_rows : RowTable (Indexing.Index indexing)
no_rows = record {
  keys = false;
  row_size = 24;
  zeros = slot (word 0) done;
  slots = no_slots;
  next_id = 1;
  count = 0;
  hash = empty_table;
  index = new_index ∷ [];
}

abbrev stocked : RowTable (Indexing.Index indexing)
stocked = record {
  keys = false;
  row_size = 24;
  zeros = slot (word 0) done;
  slots = slots_seven;
  next_id = 8;
  count = 1;
  hash = hash_seven;
  index = new_index ∷ [];
}

hput_one : hput limited empty_table 7 1 ≡ some (true, hash_seven)
unfolding hput hgrow put_grown put_at rehash probe probe_vacant hmix not_copied
hput_one = refl

pub seven-IsId : IsId 7
seven-IsId = ((λ e. absurd (omega (arith, e))), (λ e. absurd (omega (arith, e))))

abbrev IsSeven : IdHash → Type 0
IsSeven h = IsHash h × ((k : ℕ) → IsId k → entry h k ≡ (if k == 7 then some 1 else none))

hash_seven-IsSeven : IsSeven hash_seven
unfolding assoc
hash_seven-IsSeven =
    let (t', good, run, sound, why, entries) =
      hput-entry limited empty_table 7 1 seven-IsId (fresh refl refl) in
    made t' good (sym run ∙ hput_one) sound entries
  where
    made :
        (t' : IdHash) (good : Bool)
        → Path (Option (Bool × IdHash)) (some (good, t')) (some (true, hash_seven))
        → IsHash t'
        → ((k : ℕ) → IsId k → entry t' k ≡ after_put good empty_table 7 1 k)
        → IsSeven hash_seven
    made t' good e sound entries = subst IsSeven (same_hash e) (
      sound,
      λ k live. entries k live ∙ ap (λ (b : Bool). after_put b empty_table 7 1 k) (same_good e),
    )
      where
        same_hash :
            Path (Option (Bool × IdHash)) (some (good, t')) (some (true, hash_seven))
            → t' ≡ hash_seven
        same_hash e = cc

        same_good :
            Path (Option (Bool × IdHash)) (some (good, t')) (some (true, hash_seven)) → good ≡ true
        same_good e = cc

new_index-IsIndexed : IsIndexed new_index
unfolding assoc
new_index-IsIndexed = record { probed = fresh refl refl; named = λ h nz. tt; sized = tt }

no_slots-IsSlots : IsSlots no_slots
no_slots-IsSlots = record {
  slabs = 0;
  whole = refl;
  few = omega arith;
  same_size = refl;
  roomy = omega arith;
  vacant = tt;
  distinct = tt;
}

pub no_rows-IsTable : IsTable indexing no_rows
unfolding assoc
no_rows-IsTable = record {
  resident = refl;
  store = record { hashed = fresh refl refl; slotted = no_slots-IsSlots; placed = λ id live. tt };
  indexed = (new_index-IsIndexed, tt);
}

stocked-IsStore : IsStore slots_seven hash_seven
stocked-IsStore = record {
  hashed = hash_seven-IsSeven.0;
  slotted = record {
    slabs = 1;
    whole = refl;
    few = omega arith;
    same_size = refl;
    roomy = omega arith;
    vacant = tt;
    distinct = tt;
  };
  placed =
      λ id live. subst (IsPlacedAt slots_seven id) (sym (hash_seven-IsSeven.1 id live)) (at id);
}
  where
    at : (id : ℕ) → IsPlacedAt slots_seven id (if id == 7 then some 1 else none)
    at id = elim (eq-cases id 7) [
      | inl same ↦ rw (eq→== id 7 same) (omega arith, refl, sym same)
      | inr other ↦ rw (ne→== id 7 other) tt
    ]

row_ptr-look_example : row_ptr indexing stocked 7 ≡ some (look_in stocked.slots stocked.hash 7)
row_ptr-look_example = row_ptr-look indexing stocked 7 refl stocked-IsStore seven-IsId

-- Every id is read as the row 7.
abbrev always_seven : Borrow
always_seven id = some (some row_seven)

always_seven-Ends : Ends always_seven
always_seven-Ends id = (some row_seven, refl)

add_seven :
    idx_add_row nowhere words row_seven limited always_seven (new_index ∷ [])
    ≡ some (err_none, index_seven ∷ [])
unfolding idx_add_row make_bucket first_buckets more_buckets append_id idx_bucket idx_hash idx_loop
    column_value put_at rehash probe probe_vacant hmix no_hash
add_seven = refl

idx_remove_row-idx_add_row_example :
    (ixs' : List DbIndex) × (idx_remove_row nowhere words row_seven limited (index_seven ∷ [])
      ≡ some ixs')
    × Each (IsSameBag nowhere words row_seven) (new_index ∷ []) ixs'
idx_remove_row-idx_add_row_example =
    idx_remove_row-idx_add_row nowhere words row_seven limited always_seven limited-IsCapped
      always_seven-Ends (new_index ∷ []) (index_seven ∷ []) (new_index-IsIndexed, tt) add_seven
