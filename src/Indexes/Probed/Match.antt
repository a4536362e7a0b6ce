-- ===== src/Indexes/Probed/Match.antt =====
-- The ids that a probe gives (`wo_idx_probe` of database/src/table.c).
use writeonce.Common.{
  ℕ, ◌+◌, ◌*◌, ◌^◌, ◌%◌, ◌≡◌, refl, ◌∙◌, sym, ap, Bool, true, false, not, Option, none, some, List,
  [], ◌∷◌, length, bit_xor, get_or, ◌==◌, if◌then◌else◌, Bool-cases, inl, inr, arith, eq→==, ==→eq,
}
use writeonce.Wire.{Memory}
use writeonce.Engine.{Kind, scalar, owned, gcref, text, multi, map, float, bytes, Value}
use writeonce.Slots.{Row}
use writeonce.Probing.Store.{entry}
use writeonce.Rows.{Borrow}
use writeonce.Hashing.{Column, bytes_in, word_in, idx_hash_key1, not_zero-ne, key1_value}
use writeonce.Indexes.{DbIndex, bucket_at, idx_bucket, same_text, same_bytes}
use writeonce.IdHash.{hmix}
use writeonce.Indexes.Sound.{IsKey, IsIndexed, ids_at, ids_of, idx_bucket-entry}
use writeonce.Indexes.Listed.{one, occurs}
use writeonce.Indexes.Unique.{Ends}
use writeonce.Indexes.Probed.{
  ProbeResult, no_probe, found_ids, no_memory, key_matches, has_key, with_id, matching, probe_ids,
  probe_bucket, probe_index,
}

same_bytes_refl : (xs : List ℕ) → same_bytes xs xs ≡ true
unfolding same_bytes
same_bytes_refl [] = refl
same_bytes_refl (x ∷ xs) = rw (eq→== x x refl) (same_bytes_refl xs)

same_text_refl : (o : Option (List ℕ)) → same_text o o ≡ true
unfolding same_text
same_text_refl none = refl
same_text_refl (some xs) = same_bytes_refl xs

-- A row has the key that its column makes.
pub key_matches_self :
    (kind : Kind) (c : Column) → key_matches kind (word_in c) (bytes_in c) c ≡ true
unfolding key_matches
key_matches_self text c = same_text_refl (bytes_in c)
key_matches_self scalar c = eq→== (word_in c) (word_in c) refl
key_matches_self owned c = eq→== (word_in c) (word_in c) refl
key_matches_self gcref c = eq→== (word_in c) (word_in c) refl
key_matches_self multi c = eq→== (word_in c) (word_in c) refl
key_matches_self map c = eq→== (word_in c) (word_in c) refl
key_matches_self float c = eq→== (word_in c) (word_in c) refl
key_matches_self bytes c = eq→== (word_in c) (word_in c) refl

module _ (address : Value → ℕ) (kinds : ℕ → Kind) (borrow : Borrow) (ends : Ends borrow)
    (key_scalar : ℕ) (key_bytes : Option (List ℕ)) where
  -- Of the ids of a bucket, those whose row has the key, each as often as there.
  abbrev pub IsMatch : ℕ → List ℕ → List ℕ → Type 0
  IsMatch col ids out =
      (id : ℕ) (o : Option Row)
      → borrow id ≡ some o
      → occurs id out
        ≡ (if has_key address kinds borrow key_scalar key_bytes col o then occurs id ids else 0)

  matching-IsMatch :
      (col : ℕ) (ids : List ℕ)
      → (out : List ℕ) × (matching address kinds borrow key_scalar key_bytes col ids ≡ some out)
        × IsMatch col ids out
  unfolding matching
  matching-IsMatch col [] =
      ([], refl, λ id o read. nothing (has_key address kinds borrow key_scalar key_bytes col o))
    where
      nothing : (b : Bool) → ◌≡◌ {A = ℕ} 0 (if b then 0 else 0)
      nothing true = refl
      nothing false = refl
  matching-IsMatch col (i ∷ is) =
      let (o, run) = ends i in
      let (out, go, rest) = matching-IsMatch col is in
      let b = has_key address kinds borrow key_scalar key_bytes col o in
      let (out', run', is_match) = by_key o run out rest b refl in
      (
        out',
        rw (run, matching) (ap (with_id address kinds borrow key_scalar key_bytes i b) go ∙ run'),
        is_match,
      )
    where
      same_row : (o o' : Option Row) → ◌≡◌ {A = Option (Option Row)} (some o) (some o') → o ≡ o'
      same_row o o' e = cc

      arithmetic :
          (b t : Bool) (m n : ℕ)
          → m ≡ (if b then n else 0)
          → (t ≡ true → b ≡ true)
          → one t + m ≡ (if b then one t + n else 0)
      arithmetic true t m n e h = omega (arith, e)
      arithmetic false true m n e h = absurd (clash (h refl))
        where
          clash : false ≡ true → ⊥
          clash e = cc
      arithmetic false false m n e h = omega (arith, e)

      skipped :
          (b t : Bool) (m n : ℕ)
          → m ≡ (if b then n else 0)
          → (t ≡ true → b ≡ false)
          → m ≡ (if b then one t + n else 0)
      skipped false t m n e h = e
      skipped true true m n e h = absurd (clash (h refl))
        where
          clash : true ≡ false → ⊥
          clash e = cc
      skipped true false m n e h = omega (arith, e)

      by_key :
          (o : Option Row)
          → borrow i ≡ some o
          → (out : List ℕ) → IsMatch col is out
          → (b : Bool) → has_key address kinds borrow key_scalar key_bytes col o ≡ b
          → (out' : List ℕ) × (with_id address kinds borrow key_scalar key_bytes i b (some out)
              ≡ some out')
            × IsMatch col (i ∷ is) out'
      by_key o run out rest true has = (
        i ∷ out,
        refl,
        λ id o' read.
            arithmetic (has_key address kinds borrow key_scalar key_bytes col o') (i == id)
              (occurs id out) (occurs id is) (rest id o' read)
              (λ t.
                ap (has_key address kinds borrow key_scalar key_bytes col)
                  (same_row o' o (sym read ∙ ap borrow (sym (==→eq i id t)) ∙ run))
                ∙ has),
      )
      by_key o run out rest false has = (
        out,
        refl,
        λ id o' read.
            skipped (has_key address kinds borrow key_scalar key_bytes col o') (i == id)
              (occurs id out) (occurs id is) (rest id o' read)
              (λ t.
                ap (has_key address kinds borrow key_scalar key_bytes col)
                  (same_row o' o (sym read ∙ ap borrow (sym (==→eq i id t)) ∙ run))
                ∙ has),
      )

  -- The hash that the key has.
  abbrev pub key_hash : ℕ → ℕ
  key_hash col = idx_hash_key1 (kinds col) key_scalar key_bytes

  key_hash-IsKey : (col : ℕ) → IsKey (key_hash col)
  unfolding idx_hash_key1
  key_hash-IsKey col = not_zero-ne (
      bit_xor 0x9e3779b97f4a7c15
        (hmix ((key1_value (kinds col) key_scalar key_bytes + 0) % 2 ^ 64)))

  module _ (mem : Memory) where
    abbrev pub IsProbed : DbIndex → ℕ → ProbeResult → Type 0
    IsProbed ix col no_probe = ⊥
    IsProbed ix col no_memory = (n : ℕ) × (mem n ≡ false)
    IsProbed ix col (found_ids out) = IsMatch col (ids_of ix (key_hash col)) out

    abbrev IsAnswer : ℕ → List ℕ → Option ProbeResult → Type 0
    IsAnswer col ids (some no_probe) = ⊥
    IsAnswer col ids (some no_memory) = (n : ℕ) × (mem n ≡ false)
    IsAnswer col ids (some (found_ids out)) = IsMatch col ids out
    IsAnswer col ids none = ⊥

    probe_ids-IsAnswer :
        (col : ℕ) (ids : List ℕ)
        → IsAnswer col ids (probe_ids address kinds borrow key_scalar key_bytes mem col ids)
    unfolding probe_ids
    probe_ids-IsAnswer col [] = empty_bucket
      where
        empty_bucket : IsMatch col [] []
        empty_bucket id o read = nothing (has_key address kinds borrow key_scalar key_bytes col o)
          where
            nothing : (b : Bool) → ◌≡◌ {A = ℕ} 0 (if b then 0 else 0)
            nothing true = refl
            nothing false = refl
    probe_ids-IsAnswer col (i ∷ is) =
        let (out, run, is_match) = matching-IsMatch col (i ∷ is) in
        elim (Bool-cases (mem (length (i ∷ is) * 8))) [
          | inl granted ↦ rw (granted, run) is_match
          | inr denied ↦ rw denied (length (i ∷ is) * 8, denied)
        ]

    answered :
        (ix : DbIndex) (col : ℕ) (out : Option ProbeResult)
        → IsAnswer col (ids_of ix (key_hash col)) out
        → (res : ProbeResult) × (out ≡ some res) × IsProbed ix col res
    answered ix col none a = elim a [ ]
    answered ix col (some no_probe) a = elim a [ ]
    answered ix col (some no_memory) a = (no_memory, refl, a)
    answered ix col (some (found_ids out)) a = (found_ids out, refl, a)

    pub probe_index-IsProbed :
        (ix : DbIndex) (col : ℕ)
        → ix.cols ≡ col ∷ []
        → IsIndexed ix
        → (res : ProbeResult) × (probe_index address kinds borrow key_scalar key_bytes mem ix
            ≡ some res)
          × IsProbed ix col res
    unfolding probe_index probe_bucket
    probe_index-IsProbed ix col one_col sound =
        let (res, run, is) =
          answered ix col (in_bucket (entry ix.table (key_hash col)))
            (by_entry (entry ix.table (key_hash col))) in
        (
          res,
          ap with_cols one_col
              ∙ ap (probe_bucket address kinds borrow key_scalar key_bytes mem col)
                  (idx_bucket-entry ix mem (key_hash col) (key_hash-IsKey col) sound)
              ∙ run,
          is,
        )
      where
        with_cols : List ℕ → Option ProbeResult
        with_cols cols =
            if not (length cols == 1)
            then some no_probe
            else probe_bucket address kinds borrow key_scalar key_bytes mem (get_or cols 0 0)
                (idx_bucket mem ix (key_hash (get_or cols 0 0)) false)

        in_bucket : Option ℕ → Option ProbeResult
        in_bucket o = probe_bucket address kinds borrow key_scalar key_bytes mem col (some (o, ix))

        by_entry : (o : Option ℕ) → IsAnswer col (ids_at ix.lists o) (in_bucket o)
        by_entry none = probe_ids-IsAnswer col []
        by_entry (some p) = probe_ids-IsAnswer col (bucket_at ix p).ids
