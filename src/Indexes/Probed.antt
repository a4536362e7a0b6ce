-- ===== src/Indexes/Probed.antt =====
-- A probe of an index with one key (`wo_idx_probe` of database/src/table.c).
pub mod Match
pub mod Found
use writeonce.Common.{
  ℕ, zero, suc, ◌*◌, Bool, true, false, not, Option, none, some, List, [], ◌∷◌, length, get_elem?,
  get_or, ◌==◌, if◌then◌else◌,
}
use writeonce.Wire.{Memory}
use writeonce.Engine.{Kind, scalar, owned, gcref, text, multi, map, float, bytes, Value}
use writeonce.Slots.{Row}
use writeonce.Rows.{Borrow}
use writeonce.Hashing.{Column, bytes_in, word_in, idx_hash_key1}
use writeonce.Indexes.{DbIndex, idx_bucket, bucket_at, same_text, columns}

-- The results 0, 1 with the ids, and -1 of `wo_idx_probe`.
pub data ProbeResult : Type 0 where
  no_probe : ProbeResult
  found_ids : List ℕ → ProbeResult
  no_memory : ProbeResult

-- A text has its bytes, any other column its word.
unfoldable pub key_matches : Kind → ℕ → Option (List ℕ) → Column → Bool
unfolding same_text
key_matches text key_scalar key_bytes have = same_text key_bytes (bytes_in have)
key_matches other key_scalar key_bytes have = word_in have == key_scalar

module _ (address : Value → ℕ) (kinds : ℕ → Kind) (borrow : Borrow) (key_scalar : ℕ)
    (key_bytes : Option (List ℕ)) where
  -- Whether the row of an id, where it is found, has the key.
  abbrev pub has_key : ℕ → Option Row → Bool
  has_key col none = false
  has_key col (some r) = key_matches (kinds col) key_scalar key_bytes (columns address r.slots col)

  abbrev pub with_id : ℕ → Bool → Option (List ℕ) → Option (List ℕ)
  with_id id b none = none
  with_id id true (some ids) = some (id ∷ ids)
  with_id id false (some ids) = some ids

  -- The loop over the ids of the bucket.
  unfoldable pub matching : ℕ → List ℕ → Option (List ℕ)
  unfolding key_matches
  matching col [] = some []
  matching col (id ∷ ids) = elim (borrow id) [
    | none ↦ none
    | some o ↦ with_id id (has_key col o) (matching col ids)
  ]

  abbrev pub as_probed : Option (List ℕ) → Option ProbeResult
  as_probed none = none
  as_probed (some ids) = some (found_ids ids)

  module _ (mem : Memory) where
    -- if (!b || !b->len) return 1;
    unfoldable pub probe_ids : ℕ → List ℕ → Option ProbeResult
    unfolding matching
    probe_ids col [] = some (found_ids [])
    probe_ids col (id ∷ ids) =
        if mem (length (id ∷ ids) * 8) then as_probed (matching col (id ∷ ids)) else some no_memory

    unfoldable pub probe_bucket : ℕ → Option (Option ℕ × DbIndex) → Option ProbeResult
    unfolding probe_ids
    probe_bucket col none = none
    probe_bucket col (some (none, ix)) = some (found_ids [])
    probe_bucket col (some (some p, ix)) = probe_ids col (bucket_at ix p).ids

    unfoldable pub probe_index : DbIndex → Option ProbeResult
    unfolding probe_bucket idx_bucket idx_hash_key1
    probe_index ix =
        let col = get_or ix.cols 0 0 in
        if not (length ix.cols == 1)
        then some no_probe
        else probe_bucket col
            (idx_bucket mem ix (idx_hash_key1 (kinds col) key_scalar key_bytes) false)

    unfoldable pub idx_probe : List DbIndex → ℕ → Option ProbeResult
    unfolding probe_index
    idx_probe ixs index = elim (get_elem? ixs index) [
      | none ↦ some no_probe
      | some ix ↦ probe_index ix
    ]
