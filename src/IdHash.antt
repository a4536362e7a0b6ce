-- ===== src/IdHash.antt =====
-- The id hash of a table (database/src/table.c): id to slot plus one, or log offset plus one.
-- Of `db_table` the record holds `hkeys` and `hvals`, as one list, and `hlen`; `hcap` is the length
-- of the list.
pub mod Sound
pub mod Writes
pub mod Reads
use writeonce.Common.{
  ℕ, zero, suc, ◌+◌, ◌-◌, ◌*◌, ◌/◌, ◌%◌, ◌^◌, Bool, true, false, ◌||◌, Option, none, some, List, [],
  length, get_or, set, replicate, bit_xor, ltb, leb, ◌==◌, if◌then◌else◌,
}
use writeonce.Wire.{Memory}
use writeonce.Probing.{
  Bucket, Table, empty_table, vacant, Probe, found, vacancy, spinning, put_at, rebuilt, seek,
  rehash,
}

abbrev pub IdHash : Type 0
IdHash = Table

-- x = (x ^ (x >> s)) * m
abbrev pub mix_round : ℕ → ℕ → ℕ → ℕ
mix_round s m x = bit_xor x (x / 2 ^ s) * m % 2 ^ 64

unfoldable pub hmix : ℕ → ℕ
hmix x =
    let x1 = (x + 0x9e3779b97f4a7c15) % 2 ^ 64 in
    let x2 = mix_round 30 0xbf58476d1ce4e5b9 x1 in
    let x3 = mix_round 27 0x94d049bb133111eb x2 in bit_xor x3 (x3 / 2 ^ 31)

-- H_DELETED
abbrev pub deleted : ℕ
deleted = 2 ^ 64 - 1

-- if (!t->hkeys[i] || t->hkeys[i] == H_DELETED) continue;
unfoldable pub not_copied : ℕ → Bool
not_copied key = key == 0 || key == deleted

-- `none`: the loops do not end. The Boolean is `true` for the result 0.
unfoldable pub hgrow : Memory → IdHash → Option (Bool × IdHash)
unfolding hmix not_copied rehash
hgrow mem t =
    let ncap = if length t.buckets == 0 then 64 else length t.buckets * 2 in
    if mem (ncap * 8)
    then rebuilt t (rehash hmix not_copied t.buckets (replicate ncap vacant))
    else some (false, t)

unfoldable pub put_grown : ℕ → ℕ → Option (Bool × IdHash) → Option (Bool × IdHash)
unfolding put_at hmix
put_grown id slot1 none = none
put_grown id slot1 (some (false, t)) = some (false, t)
put_grown id slot1 (some (true, t)) = put_at t id slot1 (seek hmix t.buckets id)

unfoldable pub hput : Memory → IdHash → ℕ → ℕ → Option (Bool × IdHash)
unfolding put_grown hgrow
hput mem t id slot1 =
    put_grown id slot1
      (if ltb (t.len * 10) (length t.buckets * 7) then some (true, t) else hgrow mem t)

unfoldable pub value_at : List Bucket → Probe → Option ℕ
value_at bs (found j) = some (get_or bs j vacant).val
value_at bs (vacancy j) = some 0
value_at bs spinning = none

unfoldable pub hget : IdHash → ℕ → Option ℕ
unfolding value_at hmix
hget t id = if length t.buckets == 0 then some 0 else value_at t.buckets (seek hmix t.buckets id)

unfoldable pub delete_at : IdHash → Probe → Option IdHash
delete_at t (found j) =
    some (record t { buckets = set t.buckets j (record { key = deleted; val = 0 }) })
delete_at t (vacancy j) = some t
delete_at t spinning = none

unfoldable pub hdel : IdHash → ℕ → Option IdHash
unfolding delete_at hmix
hdel t id = if length t.buckets == 0 then some t else delete_at t (seek hmix t.buckets id)

-- The write of `wo_row_set_offset`, which never rehashes.
unfoldable pub offset_at : IdHash → ℕ → ℕ → Probe → Option (Bool × IdHash)
offset_at t id wal_off (found j) = some (
  true,
  record t { buckets = set t.buckets j (record { key = id; val = (wal_off + 1) % 2 ^ 64 }) },
)
offset_at t id wal_off (vacancy j) = some (false, t)
offset_at t id wal_off spinning = none

unfoldable pub set_offset : IdHash → ℕ → ℕ → Option (Bool × IdHash)
unfolding offset_at hmix
set_offset t id wal_off =
    if length t.buckets == 0
    then some (false, t)
    else offset_at t id wal_off (seek hmix t.buckets id)

-- `wo_row_set_offset` and `wo_row_offset1`, on the tables of a database.
unfoldable pub row_set_offset : List IdHash → ℕ → ℕ → ℕ → Option (Bool × List IdHash)
unfolding set_offset
row_set_offset tables class_id id wal_off =
    if leb (length tables) class_id
    then some (false, tables)
    else elim (set_offset (get_or tables class_id empty_table) id wal_off) [
      | none ↦ none
      | some r ↦ some (r.0, set tables class_id r.1)
    ]

unfoldable pub row_offset1 : List IdHash → ℕ → ℕ → Option ℕ
unfolding hget
row_offset1 tables class_id id =
    if leb (length tables) class_id
    then some 0
    else if length (get_or tables class_id empty_table).buckets == 0
    then some 0
    else hget (get_or tables class_id empty_table) id
