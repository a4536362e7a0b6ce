-- ===== src/Tests/Hashes.antt =====
-- Index hashes of concrete values (database/src/table.c).
use writeonce.Common.{◌≡◌, refl, [], ◌∷◌}
use writeonce.Hashing.{idx_float_key, fnv}

-- The published value of FNV-1a for "a".
fnv_a : fnv 14695981039346656037 (97 ∷ []) ≡ 0xaf63dc4c8601ec8c
unfolding fnv
fnv_a = refl

-- -0.0 is indexed as 0.0, and every NaN as one.
negative_zero : idx_float_key 0x8000000000000000 ≡ 0
unfolding idx_float_key
negative_zero = refl

other_nan : idx_float_key 0xFFF0000000000001 ≡ 0x7FF8000000000000
unfolding idx_float_key
other_nan = refl

infinity_kept : idx_float_key 0x7FF0000000000000 ≡ 0x7FF0000000000000
unfolding idx_float_key
infinity_kept = refl
