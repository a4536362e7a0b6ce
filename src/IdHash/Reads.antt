-- ===== src/IdHash/Reads.antt =====
-- Deletion and the overwriting of a value in the id hash (database/src/table.c).
use writeonce.Common.{
  ℕ, suc, ◌+◌, ◌%◌, ◌^◌, ◌<◌, ◌≡◌, ◌≢◌, refl, ◌∙◌, sym, ap, Bool, true, false, ◌&&◌, Option, none,
  some, [], length, set, length-set, eq-cases, subst, ◌==◌, if◌then◌else◌, eq→==, ne→==, inl, inr,
  arith,
}
use writeonce.Probing.{Bucket, Probe, found, vacancy, spinning, seek, home}
use writeonce.Probing.Walks.{key_at, EndsAt, probe-IsEnd, IsEnd, key_at-set_self, key_at-set_ne}
use writeonce.Probing.Room.{EndsBelow, used, used-set}
use writeonce.Probing.Placed.{set-IsPlaced}
use writeonce.Probing.Entries.{assoc, assoc-delete, seek-assoc, val_of}
use writeonce.IdHash.{IdHash, hmix, deleted, value_at, hget, delete_at, hdel, offset_at, set_offset}
use writeonce.IdHash.Sound.{IsId, IsHash}
use writeonce.Probing.Store.{
  entry, Filled, fresh, filled, walk_ends, has_buckets, no_buckets, stored_at, written_Put,
}

-- The result of a read, 0 for no entry.
abbrev pub value_of : Option ℕ → ℕ
value_of none = 0
value_of (some v) = v

abbrev pub is_present : Option ℕ → Bool
is_present none = false
is_present (some v) = true

module _ (t : IdHash) where
  no_entry : t.buckets ≡ [] → (k : ℕ) → entry t k ≡ none
  unfolding assoc
  no_entry e k = rw e refl

  read_at :
      (r : Probe)
      → EndsBelow (length t.buckets) r
      → value_at t.buckets r ≡ some (value_of (val_of t.buckets r))
  unfolding value_at
  read_at (found p) low = refl
  read_at (vacancy p) low = refl
  read_at spinning low = elim low [ ]

  -- A call of `hget` ends, and gives the value of the id, or 0 where the id has none.
  pub hget-entry : (id : ℕ) → IsHash t → IsId id → hget t id ≡ some (value_of (entry t id))
  unfolding hget
  hget-entry id (fresh none_yet zero_len) live =
      rw (eq→== (length t.buckets) 0 (no_buckets t none_yet), no_entry none_yet id) refl
  hget-entry id (filled f) live = rw (has_buckets hmix deleted t f) (
      read_at (seek hmix t.buckets id) (walk_ends hmix deleted t id f)
      ∙ ap (λ e. some (value_of e))
          (seek-assoc hmix deleted t.buckets id f.placed live (walk_ends hmix deleted t id f)))

  -- A call of `hget` ends for any word.
  pub hget_ends : (id : ℕ) → IsHash t → (v : ℕ) × (hget t id ≡ some v)
  unfolding hget
  hget_ends id (fresh none_yet zero_len) =
      rw (eq→== (length t.buckets) 0 (no_buckets t none_yet)) (0, refl)
  hget_ends id (filled f) = rw (has_buckets hmix deleted t f) (
    value_of (val_of t.buckets (seek hmix t.buckets id)),
    read_at (seek hmix t.buckets id) (walk_ends hmix deleted t id f),
  )

  abbrev pub after_delete : ℕ → ℕ → Option ℕ
  after_delete id k = if k == id then none else entry t k

  absent_kept : (id : ℕ) → entry t id ≡ none → (k : ℕ) → entry t k ≡ after_delete id k
  absent_kept id e k = elim (eq-cases k id) [
    | inl same ↦ rw (eq→== k id same) (ap (entry t) same ∙ e)
    | inr other ↦ rw (ne→== k id other) refl
  ]

  absent_at :
      (id p : ℕ)
      → Filled hmix deleted t
      → IsId id
      → seek hmix t.buckets id ≡ vacancy p
      → entry t id ≡ none
  absent_at id p f live e =
      sym (seek-assoc hmix deleted t.buckets id f.placed live (walk_ends hmix deleted t id f))
      ∙ ap (val_of t.buckets) e

  delete-Filled :
      (id p : ℕ)
      → Filled hmix deleted t
      → IsId id
      → p < length t.buckets
      → seek hmix t.buckets id ≡ found p
      → Filled hmix deleted
          (record t { buckets = set t.buckets p (record { key = deleted; val = 0 }) })
  delete-Filled id p f live low e =
      let b : Bucket = record { key = deleted; val = 0 } in
      let nz : deleted ≢ 0 = λ z. absurd (omega (arith, z)) in
      let size = length-set t.buckets p b in
      record {
        sized = (f.sized.0, size ∙ f.sized.1);
        large = omega (arith, size, f.large);
        counted = omega (
          arith,
          f.counted,
          used-set t.buckets p b low nz
              ∙ ap (λ (z : Bool). if z then suc (used t.buckets) else used t.buckets)
                  (ne→== (key_at t.buckets p) 0 (stored_at hmix deleted t id live f p e)),
        );
        room = omega (arith, size, f.room);
        placed =
            set-IsPlaced hmix deleted t.buckets id p b f.placed live low
              (subst (EndsAt p) (sym e) refl) (nz, inr refl);
      }

  -- A call of `hdel` ends, and takes the entry of the id away and no other.
  pub hdel-entry :
      (id : ℕ)
      → IsHash t
      → IsId id
      → (t' : IdHash) × (hdel t id ≡ some t')
        × IsHash t'
        × ((k : ℕ) → IsId k → entry t' k ≡ after_delete id k)
  unfolding hdel delete_at
  hdel-entry id (fresh none_yet zero_len) live =
      rw (eq→== (length t.buckets) 0 (no_buckets t none_yet))
        (t, refl, fresh none_yet zero_len, λ k live_k. absent_kept id (no_entry none_yet id) k)
  hdel-entry id (filled f) live =
      rw (has_buckets hmix deleted t f)
        (by_end (seek hmix t.buckets id) refl (walk_ends hmix deleted t id f))
    where
      by_end :
          (r : Probe)
          → seek hmix t.buckets id ≡ r
          → EndsBelow (length t.buckets) r
          → (t' : IdHash) × (delete_at t r ≡ some t')
            × IsHash t'
            × ((k : ℕ) → IsId k → entry t' k ≡ after_delete id k)
      by_end (found p) e low = (
        _,
        refl,
        filled (delete-Filled id p f live low e),
        λ k live_k. assoc-delete hmix deleted t.buckets id p k f.placed live live_k low e,
      )
      by_end (vacancy p) e low =
          (t, refl, filled f, λ k live_k. absent_kept id (absent_at id p f live e) k)
      by_end spinning e low = elim low [ ]

  -- The entries after an offset is written for an id, if it has an entry.
  abbrev pub after_offset : Bool → ℕ → ℕ → ℕ → Option ℕ
  after_offset there id wal_off k =
      if there && k == id then some ((wal_off + 1) % 2 ^ 64) else entry t k

  -- A call of `wo_row_set_offset` ends. It tells whether the id has an entry, writes the offset there,
  -- and leaves the key of every bucket, so that
  -- a walk over the buckets goes on.
  pub set_offset-entry :
      (id wal_off : ℕ)
      → IsHash t
      → IsId id
      → (t' : IdHash) × (set_offset t id wal_off ≡ some (is_present (entry t id), t'))
        × IsHash t'
        × (t'.len ≡ t.len)
        × ((j : ℕ) → key_at t'.buckets j ≡ key_at t.buckets j)
        × ((k : ℕ) → IsId k → entry t' k ≡ after_offset (is_present (entry t id)) id wal_off k)
  unfolding set_offset offset_at
  set_offset-entry id wal_off (fresh none_yet zero_len) live =
      rw (eq→== (length t.buckets) 0 (no_buckets t none_yet), no_entry none_yet id)
        (t, refl, fresh none_yet zero_len, refl, λ j. refl, λ k live_k. refl)
  set_offset-entry id wal_off (filled f) live =
      rw (has_buckets hmix deleted t f)
        (by_end (seek hmix t.buckets id) refl (walk_ends hmix deleted t id f))
    where
      same_keys :
          (p v : ℕ)
          → p < length t.buckets
          → key_at t.buckets p ≡ id
          → (j : ℕ) → key_at (set t.buckets p (record { key = id; val = v })) j ≡ key_at t.buckets j
      same_keys p v low here j = elim (eq-cases p j) [
        | inl at ↦
            ap (key_at (set t.buckets p (record { key = id; val = v }))) (sym at)
            ∙ key_at-set_self t.buckets p (record { key = id; val = v }) low
            ∙ sym here
            ∙ ap (key_at t.buckets) at
        | inr away ↦ key_at-set_ne t.buckets p j (record { key = id; val = v }) away
      ]

      is_there : (p : ℕ) → seek hmix t.buckets id ≡ found p → is_present (entry t id) ≡ true
      is_there p e = ap is_present (
          sym (seek-assoc hmix deleted t.buckets id f.placed live (walk_ends hmix deleted t id f))
          ∙ ap (val_of t.buckets) e)

      by_end :
          (r : Probe)
          → seek hmix t.buckets id ≡ r
          → EndsBelow (length t.buckets) r
          → (t' : IdHash) × (offset_at t id wal_off r ≡ some (is_present (entry t id), t'))
            × IsHash t'
            × (t'.len ≡ t.len)
            × ((j : ℕ) → key_at t'.buckets j ≡ key_at t.buckets j)
            × ((k : ℕ) → IsId k → entry t' k ≡ after_offset (is_present (entry t id)) id wal_off k)
      by_end (found p) e low =
          let v = (wal_off + 1) % 2 ^ 64 in
          let put =
            written_Put hmix deleted t id live f p v t.len low (subst (EndsAt p) (sym e) refl)
              (rw (ne→== (key_at t.buckets p) 0 (stored_at hmix deleted t id live f p e)) f.counted)
              f.room in
          rw (is_there p e) (
            _,
            refl,
            filled put.sound,
            refl,
            same_keys p v low (
                subst (IsEnd t.buckets id) e
                  (probe-IsEnd (length t.buckets) t.buckets id (home hmix t.buckets id))),
            put.entries,
          )
      by_end (vacancy p) e low =
          rw (absent_at id p f live e) (t, refl, filled f, refl, λ j. refl, λ k live_k. refl)
      by_end spinning e low = elim low [ ]
