-- ===== src/Indexes/Growth.antt =====
-- A creating search where the array has to be made or to grow (`idx_bucket` of database/src/table.c).
use writeonce.Common.{
  ℕ, ◌*◌, ◌≡◌, refl, ◌∙◌, sym, ap, subst, Bool, true, Option, none, some, List, length, replicate,
  leb, if◌then◌else◌, length-replicate, Bool-cases, eq→==, leb→lt, inl, inr, arith,
}
use writeonce.Wire.{Memory}
use writeonce.Probing.{Bucket, Table, vacant, seek, rehash, rebuilt}
use writeonce.Probing.Store.{
  Filled, IsSound, fresh, filled, Grown, rebuilt-Grown, no_buckets, has_buckets,
}
use writeonce.Indexes.{
  DbIndex, bucket_size, own, no_hash, first_buckets, more_buckets, make_bucket, make_grown,
  idx_bucket, regrown,
}
use writeonce.Indexes.Sound.{IsKey, IsIndexed, Same, no_hash-skipped, no_hash-copied}
use writeonce.Indexes.Made.{
  same_table, first_Grown, index-Same, trans-Same, retabled, IsMade, in_room-IsMade,
}

-- The array where it is in use has room after `more_buckets`.
regrown-rebuilt :
    (ix : DbIndex) (o : Option (List Bucket)) (t' : Table)
    → rebuilt ix.table o ≡ some (true, t')
    → regrown ix o ≡ some (true, record ix { table = t' })
regrown-rebuilt ix none t' e = absurd (clash e)
  where
    clash : ◌≡◌ {A = Option (Bool × Table)} none (some (true, t')) → ⊥
    clash e = cc
regrown-rebuilt ix (some nb) t' e =
    ap (λ (x : Table). some (true, record ix { table = x }))
      (same_table (record { buckets = nb; len = ix.table.len }) t' e)

module _ (mem : Memory) (h : ℕ) (nz : IsKey h) where
  -- A bucket is made, where `first_buckets` gave an array.
  abbrev IsOut : DbIndex → Option (Option ℕ × DbIndex) → Type 0
  IsOut ix out = (o : Option ℕ) × (ix' : DbIndex) × (out ≡ some (o, ix')) × IsMade mem ix h o ix'

  through :
      (a b : DbIndex) (out : Option (Option ℕ × DbIndex)) → Same a b → IsOut b out → IsOut a out
  through a b out s (none, ix', run, (same, why)) =
      (none, ix', run, (trans-Same a b ix' s same, why))
  through a b out s (some p, ix', run, (same, at)) =
      (some p, ix', run, (trans-Same a b ix' s same, at))

  Filled-IsMade :
      (ix : DbIndex)
      → IsIndexed ix
      → Filled own 0 ix.table
      → IsOut ix (make_grown h (more_buckets mem ix))
  unfolding make_grown more_buckets
  Filled-IsMade ix sound f =
      elim (Bool-cases (leb (length ix.table.buckets * 7) (ix.table.len * 10))) [
        | inr room ↦
            rw (room, make_grown)
              (in_room-IsMade ix h nz sound f mem (
                omega
                  (arith, leb→lt (length ix.table.buckets * 7) (ix.table.len * 10) room, f.large)))
        | inl full ↦ elim (Bool-cases (mem (length ix.table.buckets * 2 * bucket_size))) [
          | inr denied ↦
              rw (full, denied, make_grown)
                (
                  none,
                  ix,
                  refl,
                  (index-Same ix sound, (length ix.table.buckets * 2 * bucket_size, denied)),
                )
          | inl granted ↦ rw (full, granted) grown
        ]
      ]
    where
      grown : IsOut ix (
          make_grown h (
            regrown ix (
              rehash own no_hash ix.table.buckets
                (replicate (length ix.table.buckets * 2) vacant))))
      grown =
          let (t', run, g) =
            rebuilt-Grown own 0 no_hash ix.table no_hash-skipped no_hash-copied 64
              (6, length-replicate 64 vacant) (omega arith) (filled f) in
          let cap = has_buckets own 0 ix.table f in
          let g' : Grown own 0 (length ix.table.buckets * 2) ix.table t' =
            subst
              (λ (b : Bool).
                Grown own 0 (if b then 64 else length ix.table.buckets * 2) ix.table t')
              cap g in
          let run' =
            sym (
              ap
                (λ (b : Bool). rebuilt ix.table (
                  rehash own no_hash ix.table.buckets
                    (replicate (if b then 64 else length ix.table.buckets * 2) vacant)))
                cap)
            ∙ run in
          let ix1 : DbIndex = record ix { table = t' } in
          let s = retabled ix t' sound g'.sound g'.entries in
          let eq =
            regrown-rebuilt ix
              (rehash own no_hash ix.table.buckets (replicate (length ix.table.buckets * 2) vacant))
              t' run' in
          subst (λ out. IsOut ix (make_grown h out)) (sym eq)
            (through ix ix1 (make_bucket ix1 h (seek own t'.buckets h)) s (
              in_room-IsMade ix1 h nz s.sound g'.sound mem
                (omega (arith, g'.same_len, g'.size, f.room, f.large))))

  -- A creating search ends: memory was refused, or the hash has a bucket; no list of ids has changed.
  pub idx_bucket-IsMade : (ix : DbIndex) → IsIndexed ix → IsOut ix (idx_bucket mem ix h true)
  unfolding idx_bucket first_buckets
  idx_bucket-IsMade ix sound = by_sound sound.probed
    where
      by_sound : IsSound own 0 ix.table → IsOut ix (idx_bucket mem ix h true)
      by_sound (filled f) = rw (has_buckets own 0 ix.table f, idx_bucket) (Filled-IsMade ix sound f)
      by_sound (fresh none_yet zero_len) = elim (Bool-cases (mem (64 * bucket_size))) [
        | inr denied ↦
            rw
              (eq→== (length ix.table.buckets) 0 (no_buckets ix.table none_yet), denied, idx_bucket)
              (none, ix, refl, (index-Same ix sound, (64 * bucket_size, denied)))
        | inl granted ↦
            let g = first_Grown ix.table none_yet zero_len in
            let ix1 : DbIndex = record ix {
              table = record { buckets = replicate 64 vacant; len = ix.table.len };
            } in
            let s = retabled ix ix1.table sound g.sound g.entries in
            rw
              (
                eq→== (length ix.table.buckets) 0 (no_buckets ix.table none_yet),
                granted,
                idx_bucket,
              )
              (through ix ix1 (make_grown h (more_buckets mem ix1)) s
                (Filled-IsMade ix1 s.sound g.sound))
      ]
