-- ===== src/Indexes.antt =====
-- The secondary indexes of a table (database/src/table.c): for each, buckets of row ids by the hash of
-- the indexed columns. The array of `db_ibucket` is a Probing table from a hash to the place of the
-- bucket in the list `lists`; a bucket keeps its place there when the array grows, and `len` is the
-- length of `ids`.
-- `address` is the word of a slot that is a pointer, as malloc gave it. An outer `none` is for a loop
-- that does not end.
pub mod Sound
pub mod Made
pub mod Growth
pub mod Listed
pub mod Single
pub mod Unique
pub mod Whole
pub mod Undo
pub mod Interface
pub mod Probed
use writeonce.Common.{
  ℕ, zero, suc, ◌+◌, ◌-◌, ◌*◌, ◌%◌, ◌^◌, Bool, true, false, not, Option, none, some, List, [], ◌∷◌,
  ◌++◌, length, get_or, set, take, replicate, leb, ◌==◌, if◌then◌else◌,
}
use writeonce.Wire.{Memory}
use writeonce.Engine.{
  Kind, scalar, owned, gcref, text, multi, map, float, bytes, Value, nil, word, db_text, db_rec,
  db_multi, db_map, Values, done, slot,
}
use writeonce.Hashing.{Column, text_of, idx_float_key, idx_hash, bytes_in, word_in}
use writeonce.Probing.{Bucket, Table, Probe, found, vacancy, spinning, vacant, seek, rehash}
use writeonce.Slots.{Row}
use writeonce.Rows.{Borrow, AddError, err_none, err_oom, err_unique}

pub record Ibucket : Type 0 where
  pub hash : ℕ
  pub ids : List ℕ
  pub cap : ℕ

abbrev pub no_bucket : Ibucket
no_bucket = record { hash = 0; ids = []; cap = 0 }

-- `unique` is bit 0 of the flags.
pub record DbIndex : Type 0 where
  pub unique : Bool
  pub cols : List ℕ
  pub table : Table
  pub lists : List Ibucket

-- sizeof(db_ibucket)
abbrev pub bucket_size : ℕ
bucket_size = 24

-- The home of a hash is the hash.
abbrev pub own : ℕ → ℕ
own h = h

-- if (!ix->buckets[i].hash) continue;
unfoldable pub no_hash : ℕ → Bool
no_hash h = h == 0

-- The part of `idx_bucket` that allocates the first array.
unfoldable pub first_buckets : Memory → DbIndex → Option DbIndex
first_buckets mem ix =
    if length ix.table.buckets == 0
    then if mem (64 * bucket_size)
      then some (record ix { table = record { buckets = replicate 64 vacant; len = ix.table.len } })
      else none
    else some ix

abbrev pub regrown : DbIndex → Option (List Bucket) → Option (Bool × DbIndex)
regrown ix none = none
regrown ix (some nb) =
    some (true, record ix { table = record { buckets = nb; len = ix.table.len } })

-- The part that enlarges it; `false` for NULL.
unfoldable pub more_buckets : Memory → DbIndex → Option (Bool × DbIndex)
unfolding rehash no_hash
more_buckets mem ix =
    let ncap = length ix.table.buckets * 2 in
    if leb (length ix.table.buckets * 7) (ix.table.len * 10)
    then if mem (ncap * bucket_size)
      then regrown ix (rehash own no_hash ix.table.buckets (replicate ncap vacant))
      else some (false, ix)
    else some (true, ix)

-- The end of the walk: the place of the bucket, or `none` for NULL.
unfoldable pub find_bucket : DbIndex → Probe → Option (Option ℕ × DbIndex)
find_bucket ix (found j) = some (some (get_or ix.table.buckets j vacant).val, ix)
find_bucket ix (vacancy j) = some (none, ix)
find_bucket ix spinning = none

unfoldable pub make_bucket : DbIndex → ℕ → Probe → Option (Option ℕ × DbIndex)
make_bucket ix h (found j) = some (some (get_or ix.table.buckets j vacant).val, ix)
make_bucket ix h (vacancy j) = some (
  some (length ix.lists),
  record ix {
    table = record {
      buckets = set ix.table.buckets j (record { key = h; val = length ix.lists });
      len = ix.table.len + 1;
    };
    lists = ix.lists ++ (record { hash = h; ids = []; cap = 0 } ∷ []);
  },
)
make_bucket ix h spinning = none

unfoldable pub make_grown : ℕ → Option (Bool × DbIndex) → Option (Option ℕ × DbIndex)
unfolding make_bucket
make_grown h none = none
make_grown h (some (false, ix)) = some (none, ix)
make_grown h (some (true, ix)) = make_bucket ix h (seek own ix.table.buckets h)

-- The Boolean is `create`.
unfoldable pub idx_bucket : Memory → DbIndex → ℕ → Bool → Option (Option ℕ × DbIndex)
unfolding first_buckets more_buckets find_bucket make_grown
idx_bucket mem ix h false =
    if length ix.table.buckets == 0
    then some (none, ix)
    else find_bucket ix (seek own ix.table.buckets h)
idx_bucket mem ix h true = elim (first_buckets mem ix) [
  | none ↦ some (none, ix)
  | some ix' ↦ make_grown h (more_buckets mem ix')
]

abbrev pub bucket_at : DbIndex → ℕ → Ibucket
bucket_at ix p = get_or ix.lists p no_bucket

abbrev pub put_bucket : DbIndex → ℕ → Ibucket → DbIndex
put_bucket ix p b = record ix { lists = set ix.lists p b }

-- The id goes to the end of a bucket; `false` without memory.
unfoldable pub append_id : Memory → ℕ → Option (Option ℕ × DbIndex) → Option (Bool × DbIndex)
append_id mem id none = none
append_id mem id (some (none, ix)) = some (false, ix)
append_id mem id (some (some p, ix)) =
    let b = bucket_at ix p in
    let ncap = if b.cap == 0 then 4 else b.cap * 2 % 2 ^ 32 in
    if length b.ids == b.cap
    then if mem (ncap * 8)
      then some (true, put_bucket ix p (record b { ids = b.ids ++ (id ∷ []); cap = ncap }))
      else some (false, ix)
    else some (true, put_bucket ix p (record b { ids = b.ids ++ (id ∷ []) }))

-- if (b->ids[i] == r->id), from the place `i` on.
unfoldable pub place_of : ℕ → ℕ → List ℕ → Option ℕ
place_of id i [] = none
place_of id i (j ∷ js) = if j == id then some i else place_of id (i + 1) js

-- b->ids[i] = b->ids[--b->len]; break;
unfoldable pub swap_out : ℕ → List ℕ → List ℕ
unfolding place_of
swap_out id ids = elim (place_of id 0 ids) [
  | none ↦ ids
  | some i ↦ take (length ids - 1) (set ids i (get_or ids (length ids - 1) 0))
]

unfoldable pub drop_id : ℕ → Option (Option ℕ × DbIndex) → Option DbIndex
unfolding swap_out
drop_id id none = none
drop_id id (some (none, ix)) = some ix
drop_id id (some (some p, ix)) =
    let b = bucket_at ix p in some (put_bucket ix p (record b { ids = swap_out id b.ids }))

-- x->len != y->len || memcmp(x->bytes, y->bytes, x->len) != 0
unfoldable pub same_bytes : List ℕ → List ℕ → Bool
same_bytes [] [] = true
same_bytes [] (y ∷ ys) = false
same_bytes (x ∷ xs) [] = false
same_bytes (x ∷ xs) (y ∷ ys) = if x == y then same_bytes xs ys else false

unfoldable pub same_text : Option (List ℕ) → Option (List ℕ) → Bool
unfolding same_bytes
same_text none none = true
same_text none (some ys) = false
same_text (some xs) none = false
same_text (some xs) (some ys) = same_bytes xs ys

unfoldable pub same_column : Kind → Column → Column → Bool
unfolding same_text idx_float_key
same_column text a b = same_text (bytes_in a) (bytes_in b)
same_column float a b = idx_float_key (word_in a) == idx_float_key (word_in b)
same_column other a b = word_in a == word_in b

unfoldable pub idx_cols_equal : (ℕ → Kind) → List ℕ → (ℕ → Column) → (ℕ → Column) → Bool
unfolding same_column
idx_cols_equal kinds [] a b = true
idx_cols_equal kinds (col ∷ cols) a b =
    if same_column (kinds col) (a col) (b col) then idx_cols_equal kinds cols a b else false

module _ (address : Value → ℕ) where
  -- A slot as the hash reads it.
  abbrev pub column_of : Value → Column
  column_of nil = Column.word 0
  column_of (word w) = Column.word w
  column_of (db_text bs) = text_of (some bs)
  column_of (db_rec c vs) = Column.word (address (db_rec c vs))
  column_of (db_multi k vs) = Column.word (address (db_multi k vs))
  column_of (db_map k v ps) = Column.word (address (db_map k v ps))

  abbrev pub columns : Values → ℕ → Column
  columns done i = Column.word 0
  columns (slot v vs) zero = column_of v
  columns (slot v vs) (suc i) = columns vs i

  module _ (kinds : ℕ → Kind) (r : Row) where
    abbrev pub row_hash : DbIndex → ℕ
    row_hash ix = idx_hash kinds ix.cols (columns r.slots)

    -- int clash = other && idx_cols_equal(c, ix, r, other);
    abbrev pub clashes : DbIndex → Option Row → Bool
    clashes ix none = false
    clashes ix (some other) = idx_cols_equal kinds ix.cols (columns r.slots) (columns other.slots)

    -- The loop over the ids of a bucket.
    unfoldable pub any_clash : Borrow → DbIndex → List ℕ → Option Bool
    unfolding idx_cols_equal
    any_clash borrow ix [] = some false
    any_clash borrow ix (id ∷ ids) = elim (borrow id) [
      | none ↦ none
      | some o ↦ if clashes ix o then some true else any_clash borrow ix ids
    ]

    abbrev pub clash_in : Borrow → Option (Option ℕ × DbIndex) → Option Bool
    clash_in borrow none = none
    clash_in borrow (some (none, ix)) = some false
    clash_in borrow (some (some p, ix)) = any_clash borrow ix (bucket_at ix p).ids

    module _ (mem : Memory) where
      unfoldable pub violates : Borrow → DbIndex → Option Bool
      unfolding any_clash idx_bucket idx_hash
      violates borrow ix =
          if not ix.unique
          then some false
          else clash_in borrow (idx_bucket mem ix (row_hash ix) false)

      -- The first loop of `idx_add_row`: true for DB_ERR_UNIQUE.
      unfoldable pub check_rows : Borrow → List DbIndex → Option Bool
      unfolding violates
      check_rows borrow [] = some false
      check_rows borrow (ix ∷ ixs) = elim (violates borrow ix) [
        | none ↦ none
        | some bad ↦ if bad then some true else check_rows borrow ixs
      ]

      unfoldable pub add_index : DbIndex → Option (Bool × DbIndex)
      unfolding append_id idx_bucket idx_hash
      add_index ix = append_id mem r.id (idx_bucket mem ix (row_hash ix) true)

      abbrev pub with_index :
          DbIndex → Option (AddError × List DbIndex) → Option (AddError × List DbIndex)
      with_index ix none = none
      with_index ix (some (e, ixs)) = some (e, ix ∷ ixs)

      -- The second loop.
      unfoldable pub add_rows : List DbIndex → Option (AddError × List DbIndex)
      unfolding add_index
      add_rows [] = some (err_none, [])
      add_rows (ix ∷ ixs) = elim (add_index ix) [
        | none ↦ none
        | some (good, ix') ↦
            if good then with_index ix' (add_rows ixs) else some (err_oom, ix' ∷ ixs)
      ]

      unfoldable pub idx_add_row : Borrow → List DbIndex → Option (AddError × List DbIndex)
      unfolding check_rows add_rows
      idx_add_row borrow ixs = elim (check_rows borrow ixs) [
        | none ↦ none
        | some bad ↦ if bad then some (err_unique, ixs) else add_rows ixs
      ]

      unfoldable pub idx_remove_row : List DbIndex → Option (List DbIndex)
      unfolding drop_id idx_bucket idx_hash
      idx_remove_row [] = some []
      idx_remove_row (ix ∷ ixs) = elim (drop_id r.id (idx_bucket mem ix (row_hash ix) false)) [
        | none ↦ none
        | some ix' ↦ elim (idx_remove_row ixs) [ none ↦ none | some rest ↦ some (ix' ∷ rest) ]
      ]
