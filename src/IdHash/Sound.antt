-- ===== src/IdHash/Sound.antt =====
-- Growth of the id hash (database/src/table.c).
use writeonce.Common.{
  ℕ, suc, ◌*◌, ◌<◌, ◌≡◌, ◌≢◌, ◌∙◌, true, false, some, length, length-replicate, Bool-cases, ◌==◌,
  if◌then◌else◌, eq→==, ne→==, ==→eq, inl, inr, arith,
}
use writeonce.Wire.{Memory}
use writeonce.Probing.{vacant}
use writeonce.Probing.Placed.{IsLive}
use writeonce.Probing.Store.{IsSound, fresh, filled, Grown, rebuilt-Grown, no_buckets}
use writeonce.IdHash.{IdHash, hmix, deleted, not_copied, hgrow}

-- An id that a row may have: not 0 and not H_DELETED.
abbrev pub IsId : ℕ → Type 0
IsId id = IsLive hmix deleted id

-- The invariant of a table's hash.
abbrev pub IsHash : IdHash → Type 0
IsHash t = IsSound hmix deleted t

not_copied-skipped : (k : ℕ) → not_copied k ≡ true → (j : ℕ) → IsId j → j ≢ k
unfolding not_copied
not_copied-skipped k e j live same = elim (Bool-cases (k == 0)) [
  | inl z ↦ live.0 (same ∙ ==→eq k 0 z)
  | inr nz ↦ live.1 (same ∙ ==→eq k deleted (rw nz at e))
]

not_copied-copied : (k : ℕ) → not_copied k ≡ false → IsId k
unfolding not_copied
not_copied-copied k e = (
  λ z. clash (rw (eq→== k 0 z) at e),
  λ d. elim (Bool-cases (k == 0)) [
    | inl z ↦ clash (rw z at e)
    | inr nz ↦ clash (rw (nz, eq→== k deleted d) at e)
  ],
)
  where
    clash : true ≡ false → ⊥
    clash e = cc

-- The capacity that the hash grows to.
abbrev pub grown_cap : IdHash → ℕ
grown_cap t = if length t.buckets == 0 then 64 else length t.buckets * 2

-- A larger capacity is at most seven tenths in use, with room for one more.
pub grown_cap-spacious :
    (t : IdHash) → IsHash t → (t.len * 10 < grown_cap t * 7) × (suc t.len < grown_cap t)
grown_cap-spacious t (fresh none_yet zero_len) =
    rw (eq→== (length t.buckets) 0 (no_buckets t none_yet))
      (omega (arith, zero_len), omega (arith, zero_len))
grown_cap-spacious t (filled f) =
    rw (ne→== (length t.buckets) 0 (λ z. absurd (omega (arith, f.large, z))))
      (omega (arith, f.room, f.large), omega (arith, f.room, f.large))

module _ (mem : Memory) (t : IdHash) where
  -- Where memory is there for the larger arrays, the hash grows.
  pub hgrow-Grown :
      IsHash t
      → mem (grown_cap t * 8) ≡ true
      → (t' : IdHash) × (hgrow mem t ≡ some (true, t')) × Grown hmix deleted (grown_cap t) t t'
  unfolding hgrow
  hgrow-Grown sound granted = rw granted (
      rebuilt-Grown hmix deleted not_copied t not_copied-skipped not_copied-copied 64
        (6, length-replicate 64 vacant) (omega arith) sound)
