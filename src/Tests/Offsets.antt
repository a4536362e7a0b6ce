-- ===== src/Tests/Offsets.antt =====
-- The offset map of a migration on concrete offsets (database/src/wal.c).
use writeonce.Common.{
  leb, length, ◌*◌, ℕ, ◌≡◌, refl, Bool, true, false, some, ◌⊎◌, replicate, set, arith, ◌*◌,
}
use writeonce.Probing.{empty_table, vacant, put_at, probe, probe_vacant, rehash}
use writeonce.Probing.Store.{fresh}
use writeonce.Offsets.{
  MigMap, spread, unused, migmap_grow, migmap_put_grown, migmap_put, mapped_at, migmap_get,
}
use writeonce.Offsets.Lookup.{IsMap, IsOffset, larger, after_put, migmap_get-put}
use writeonce.Tests.Records.{plenty}

-- The offset 0, of the first record of an old log, is a key like any other.
abbrev one_offset : MigMap
one_offset = record {
  buckets = set (replicate 1024 vacant) 21 (record { key = 1; val = 40 });
  len = 1;
}

migmap_put_first : migmap_put plenty empty_table 0 40 ≡ some (true, one_offset)
unfolding migmap_put migmap_grow migmap_put_grown put_at rehash probe probe_vacant spread unused
migmap_put_first = refl

migmap_get_first : migmap_get one_offset 0 ≡ some (some 40)
unfolding migmap_get mapped_at probe spread
migmap_get_first = refl

zero-IsOffset : IsOffset 0
zero-IsOffset = omega arith

migmap_get-put_example :
    (m' : MigMap) × (good : Bool) × (migmap_put plenty empty_table 0 40 ≡ some (good, m'))
    × IsMap m'
    × ((good ≡ true)
        ⊎ ((leb (length empty_table.buckets) (empty_table.len * 2) ≡ true)
            × (plenty (larger empty_table * 8) ≡ false)
            × (m' ≡ empty_table)))
    × ((k : ℕ) → IsOffset k → migmap_get m' k ≡ after_put good empty_table 0 40 k)
migmap_get-put_example = migmap_get-put plenty empty_table 0 40 zero-IsOffset (fresh refl refl)
