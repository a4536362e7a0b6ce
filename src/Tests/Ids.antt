-- ===== src/Tests/Ids.antt =====
-- The id hash on concrete ids (database/src/table.c).
use writeonce.Common.{
  ltb, length, ◌*◌, ℕ, ◌≡◌, refl, ◌∙◌, sym, Bool, true, false, Option, some, ◌⊎◌, set, replicate,
  subst, arith, ◌*◌,
}
use writeonce.Probing.{vacant, empty_table, put_at, probe, probe_vacant, rehash}
use writeonce.Probing.Walks.{key_at}
use writeonce.IdHash.{
  IdHash, hmix, not_copied, hgrow, put_grown, hput, value_at, hget, hdel, set_offset,
}
use writeonce.IdHash.Sound.{IsId, IsHash, grown_cap}
use writeonce.Probing.Store.{entry, fresh}
use writeonce.IdHash.Writes.{hput-entry, after_put}
use writeonce.IdHash.Reads.{hdel-entry, after_delete, set_offset-entry, after_offset, is_present}
use writeonce.Tests.Records.{plenty}

-- Where the finalizer of splitmix64 sends 7, and its bucket of 64.
hmix_seven : hmix 7 ≡ 0x63cbe1e459320dd7
unfolding hmix
hmix_seven = refl

abbrev one_row : IdHash
one_row = record { buckets = set (replicate 64 vacant) 23 (record { key = 7; val = 9 }); len = 1 }

hput_seven : hput plenty empty_table 7 9 ≡ some (true, one_row)
unfolding hput hgrow put_grown put_at rehash probe probe_vacant hmix not_copied
hput_seven = refl

hget_seven : hget one_row 7 ≡ some 9
unfolding hget value_at probe hmix
hget_seven = refl

seven-IsId : IsId 7
seven-IsId = ((λ e. absurd (omega (arith, e))), (λ e. absurd (omega (arith, e))))

hput-entry_example :
    (t' : IdHash) × (good : Bool) × (hput plenty empty_table 7 9 ≡ some (good, t'))
    × IsHash t'
    × ((good ≡ true)
        ⊎ ((ltb (empty_table.len * 10) (length empty_table.buckets * 7) ≡ false)
            × (plenty (grown_cap empty_table * 8) ≡ false)
            × (t' ≡ empty_table)))
    × ((k : ℕ) → IsId k → entry t' k ≡ after_put good empty_table 7 9 k)
hput-entry_example = hput-entry plenty empty_table 7 9 seven-IsId (fresh refl refl)

one_row-IsHash : IsHash one_row
one_row-IsHash =
    let (t', good, run, sound, why, rest) =
      hput-entry plenty empty_table 7 9 seven-IsId (fresh refl refl) in
    subst IsHash (same t' good (sym run ∙ hput_seven)) sound
  where
    same :
        (t' : IdHash) (good : Bool)
        → Path (Option (Bool × IdHash)) (some (good, t')) (some (true, one_row))
        → t' ≡ one_row
    same t' good e = cc

hdel-entry_example :
    (t' : IdHash) × (hdel one_row 7 ≡ some t')
    × IsHash t'
    × ((k : ℕ) → IsId k → entry t' k ≡ after_delete one_row 7 k)
hdel-entry_example = hdel-entry one_row 7 one_row-IsHash seven-IsId

set_offset-entry_example :
    (t' : IdHash) × (set_offset one_row 7 640 ≡ some (is_present (entry one_row 7), t'))
    × IsHash t'
    × (t'.len ≡ one_row.len)
    × ((j : ℕ) → key_at t'.buckets j ≡ key_at one_row.buckets j)
    × ((k : ℕ) → IsId k → entry t' k ≡ after_offset one_row (is_present (entry one_row 7)) 7 640 k)
set_offset-entry_example = set_offset-entry one_row 7 640 one_row-IsHash seven-IsId
