-- ===== src/Indexes/Sound.antt =====
-- The invariant of an index, and what `idx_bucket` finds or makes (database/src/table.c).
use writeonce.Common.{
  ℕ, zero, suc, ◌≤◌, ◌^◌, ◌∷◌, ◌++◌, set, All, arith, ◌<◌, ◌≡◌, ◌≢◌, refl, ◌∙◌, sym, ap, Bool, true,
  false, Option, none, some, List, [], length, get_or, ◌==◌, if◌then◌else◌, eq→==, ==→eq, ==→ne,
}
use writeonce.Wire.{Memory}
use writeonce.Probing.{Probe, found, vacancy, spinning, seek}
use writeonce.Probing.Placed.{IsLive}
use writeonce.Probing.Room.{EndsBelow}
use writeonce.Probing.Entries.{assoc, seek-assoc, val_of}
use writeonce.Probing.Store.{entry, IsSound, fresh, filled, no_buckets, has_buckets, walk_ends}
use writeonce.Indexes.{Ibucket, no_bucket, DbIndex, own, no_hash, find_bucket, idx_bucket}

-- A hash of rows is not 0.
abbrev pub IsKey : ℕ → Type 0
IsKey h = h ≢ 0

-- A bucket that the array names has its hash.
abbrev pub IsNamed : List Ibucket → ℕ → Option ℕ → Type 0
IsNamed ls h none = Unit
IsNamed ls h (some p) = (p < length ls) × ((get_or ls p no_bucket).hash ≡ h)

-- The ids of a bucket are within its array, whose size does not wrap when it is doubled.
abbrev pub IsSized : Ibucket → Type 0
IsSized b = (length b.ids ≤ b.cap) × (b.cap < 2 ^ 31)

pub no_bucket-IsSized : IsSized no_bucket
no_bucket-IsSized = (omega arith, omega arith)

pub bucket-IsSized : (ls : List Ibucket) (p : ℕ) → All IsSized ls → IsSized (get_or ls p no_bucket)
bucket-IsSized [] p h = no_bucket-IsSized
bucket-IsSized (b ∷ bs) zero h = h.0
bucket-IsSized (b ∷ bs) (suc p) h = bucket-IsSized bs p h.1

pub set-IsSized :
    (ls : List Ibucket) (p : ℕ) (b : Ibucket)
    → IsSized b
    → All IsSized ls
    → All IsSized (set ls p b)
set-IsSized [] p b sized h = tt
set-IsSized (c ∷ cs) zero b sized h = (sized, h.1)
set-IsSized (c ∷ cs) (suc p) b sized h = (h.0, set-IsSized cs p b sized h.1)

pub append-IsSized :
    (ls : List Ibucket) (b : Ibucket) → IsSized b → All IsSized ls → All IsSized (ls ++ (b ∷ []))
append-IsSized [] b sized h = (sized, tt)
append-IsSized (c ∷ cs) b sized h = (h.0, append-IsSized cs b sized h.1)

pub record IsIndexed (ix : DbIndex) : Type 0 where
  pub probed : IsSound own 0 ix.table
  pub named : (h : ℕ) → IsKey h → IsNamed ix.lists h (entry ix.table h)
  pub sized : All IsSized ix.lists

-- The index as a map from hashes to ids.
abbrev pub ids_at : List Ibucket → Option ℕ → List ℕ
ids_at ls none = []
ids_at ls (some p) = (get_or ls p no_bucket).ids

abbrev pub ids_of : DbIndex → ℕ → List ℕ
ids_of ix h = ids_at ix.lists (entry ix.table h)

-- What a change of the array leaves.
pub record Same (ix ix' : DbIndex) : Type 0 where
  pub sound : IsIndexed ix'
  pub unique : ix'.unique ≡ ix.unique
  pub cols : ix'.cols ≡ ix.cols
  pub ids : (h : ℕ) → IsKey h → ids_of ix' h ≡ ids_of ix h

pub key-IsLive : (h : ℕ) → IsKey h → IsLive own 0 h
key-IsLive h nz = (nz, nz)

module _ (ix : DbIndex) where
  find_bucket-val_of :
      (r : Probe)
      → EndsBelow (length ix.table.buckets) r
      → find_bucket ix r ≡ some (val_of ix.table.buckets r, ix)
  unfolding find_bucket
  find_bucket-val_of (found j) low = refl
  find_bucket-val_of (vacancy j) low = refl
  find_bucket-val_of spinning low = elim low [ ]

  -- A search finds what the index has for the hash.
  pub idx_bucket-entry :
      (mem : Memory) (h : ℕ)
      → IsKey h
      → IsIndexed ix
      → idx_bucket mem ix h false ≡ some (entry ix.table h, ix)
  unfolding idx_bucket assoc
  idx_bucket-entry mem h nz sound = by_sound sound.probed
    where
      by_sound :
          IsSound own 0 ix.table
          → (if length ix.table.buckets == 0
              then some (none, ix)
              else find_bucket ix (seek own ix.table.buckets h))
            ≡ some (entry ix.table h, ix)
      by_sound (fresh none_yet zero_len) =
          ap
            (λ (b : Bool).
              if b then some (none, ix) else find_bucket ix (seek own ix.table.buckets h))
            (eq→== (length ix.table.buckets) 0 (no_buckets ix.table none_yet))
          ∙ ap (λ bs. some (assoc bs h, ix)) (sym none_yet)
      by_sound (filled f) =
          ap
            (λ (b : Bool).
              if b then some (none, ix) else find_bucket ix (seek own ix.table.buckets h))
            (has_buckets own 0 ix.table f)
          ∙ find_bucket-val_of (seek own ix.table.buckets h) (walk_ends own 0 ix.table h f)
          ∙ ap (λ o. some (o, ix))
              (seek-assoc own 0 ix.table.buckets h f.placed (key-IsLive h nz)
                (walk_ends own 0 ix.table h f))

pub no_hash-skipped : (k : ℕ) → no_hash k ≡ true → (j : ℕ) → IsLive own 0 j → j ≢ k
unfolding no_hash
no_hash-skipped k e j live same = live.0 (same ∙ ==→eq k 0 e)

pub no_hash-copied : (k : ℕ) → no_hash k ≡ false → IsLive own 0 k
unfolding no_hash
no_hash-copied k e = (==→ne k 0 e, ==→ne k 0 e)
