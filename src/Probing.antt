-- ===== src/Probing.antt =====
-- Open addressing with linear probing, as the id hash of database/src/table.c and the offset map of
-- database/src/wal.c use it: a power of two of buckets, key 0 for an empty one, and a walk from the
-- home bucket of a key that wraps at the end.
-- The two arrays of the source, of keys and of values, are one list of pairs.
pub mod Walks
pub mod Placed
pub mod Room
pub mod Entries
pub mod Rehash
pub mod Store
use writeonce.Common.{
  ℕ, zero, suc, ◌+◌, ◌-◌, Bool, true, false, Option, none, some, List, [], ◌∷◌, length, get_or, set,
  bit_and, ◌==◌, if◌then◌else◌,
}

pub record Bucket : Type 0 where
  pub key : ℕ
  pub val : ℕ

-- The arrays, whose length is the capacity, and the count that the load is taken from.
pub record Table : Type 0 where
  pub buckets : List Bucket
  pub len : ℕ

abbrev pub empty_table : Table
empty_table = record { buckets = []; len = 0 }

abbrev pub vacant : Bucket
vacant = record { key = 0; val = 0 }

-- Where a walk ends: at the key, at an empty bucket, or never.
pub data Probe : Type 0 where
  found : ℕ → Probe
  vacancy : ℕ → Probe
  spinning : Probe

-- j = (j + 1) & (cap - 1)
abbrev pub next : List Bucket → ℕ → ℕ
next bs j = bit_and (j + 1) (length bs - 1)

-- while (k[j] && k[j] != key) j = ..., on fuel.
unfoldable pub probe : ℕ → List Bucket → ℕ → ℕ → Probe
probe zero bs key j = spinning
probe (suc fuel) bs key j =
    let b = get_or bs j vacant in
    let rest = probe fuel bs key (next bs j) in
    if b.key == 0 then vacancy j else if b.key == key then found j else rest

-- while (k[j]) j = ..., on fuel; `none` for never.
unfoldable pub probe_vacant : ℕ → List Bucket → ℕ → Option ℕ
probe_vacant zero bs j = none
probe_vacant (suc fuel) bs j =
    let b = get_or bs j vacant in
    let rest = probe_vacant fuel bs (next bs j) in if b.key == 0 then some j else rest

-- The writes of an insertion, where its walk has ended: `none` where it does not end, and `true` for
-- the result 0.
unfoldable pub put_at : Table → ℕ → ℕ → Probe → Option (Bool × Table)
put_at t key v (found j) =
    some (true, record t { buckets = set t.buckets j (record { key = key; val = v }) })
put_at t key v (vacancy j) =
    some (
      true,
      record t { buckets = set t.buckets j (record { key = key; val = v }); len = t.len + 1 },
    )
put_at t key v spinning = none

-- The new arrays of a growth take the place of the old ones.
abbrev pub rebuilt : Table → Option (List Bucket) → Option (Bool × Table)
rebuilt t none = none
rebuilt t (some nb) = some (true, record t { buckets = nb })

module _ (mix : ℕ → ℕ) where
  -- The home bucket of a key, mix(key) & (cap - 1).
  abbrev pub home : List Bucket → ℕ → ℕ
  home bs key = bit_and (mix key) (length bs - 1)

  -- The walk of a key, of one round for each bucket at most.
  abbrev pub seek : List Bucket → ℕ → Probe
  seek bs key = probe (length bs) bs key (home bs key)

  -- A bucket goes to the place that was found for it.
  abbrev pub place : Bucket → List Bucket → Option ℕ → Option (List Bucket)
  place b nb none = none
  place b nb (some j) = some (set nb j b)

  -- The loop over the old buckets; `skip` tells those that are not copied.
  unfoldable pub rehash : (ℕ → Bool) → List Bucket → List Bucket → Option (List Bucket)
  unfolding probe_vacant
  rehash skip [] nb = some nb
  rehash skip (b ∷ bs) nb =
      let step =
        if skip b.key then some nb else place b nb (probe_vacant (length nb) nb (home nb b.key)) in
      elim step [ none ↦ none | some nb' ↦ rehash skip bs nb' ]
