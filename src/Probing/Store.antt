-- ===== src/Probing/Store.antt =====
-- A table in use: its invariant, and that an insertion and a growth keep it.
use writeonce.Common.{
  ℕ, suc, ◌+◌, ◌*◌, ◌≤◌, ◌<◌, ◌≡◌, ◌≢◌, refl, ◌∙◌, sym, ap, Bool, true, false, Option, some, List,
  [], length, set, replicate, length-set, length-replicate, subst, ◌==◌, if◌then◌else◌, eq→==,
  ne→==, inl, arith,
}
use native.Mathlib.Nat.{pow-suc}
use writeonce.Probing.{
  Bucket, Table, vacant, Probe, found, vacancy, spinning, put_at, rebuilt, home, seek, rehash,
}
use writeonce.Probing.Walks.{key_at, EndsAt, probe-IsEnd, IsEnd}
use writeonce.Probing.Room.{IsSized, EndsBelow, used, used-set}
use writeonce.Probing.Placed.{IsLive, IsPlaced, set-IsPlaced}
use writeonce.Probing.Entries.{assoc, assoc-put}
use writeonce.Probing.Rehash.{used_nil, seek_ends, rehash-replicate}

-- The value that stands with a key.
abbrev pub entry : Table → ℕ → Option ℕ
entry t key = assoc t.buckets key

pub no_buckets : (t : Table) → t.buckets ≡ [] → length t.buckets ≡ 0
no_buckets t e = ap (λ (l : List Bucket). length l) e

module _ (mix : ℕ → ℕ) (dead : ℕ) where
  -- A table with buckets. `len` may exceed the buckets in use, since a deletion does not lower it.
  pub record Filled (t : Table) : Type 0 where
    pub sized : IsSized t.buckets
    pub large : 4 ≤ length t.buckets
    pub counted : used t.buckets ≤ t.len
    pub room : t.len < length t.buckets
    pub placed : IsPlaced mix dead t.buckets

  -- Before the first insertion there are no buckets.
  pub data IsSound (t : Table) : Type 0 where
    fresh : t.buckets ≡ [] → t.len ≡ 0 → IsSound t
    filled : Filled t → IsSound t

  -- A table with buckets is not taken for one without.
  pub has_buckets : (t : Table) → Filled t → (length t.buckets == 0) ≡ false
  has_buckets t f = ne→== (length t.buckets) 0 (λ z. absurd (omega (arith, f.large, z)))

  pub walk_ends :
      (t : Table) (key : ℕ) → Filled t → EndsBelow (length t.buckets) (seek mix t.buckets key)
  walk_ends t key f = seek_ends mix t.buckets key f.sized (omega (arith, f.counted, f.room))

  -- A successful growth to `n` buckets keeps the entries.
  pub record Grown (n : ℕ) (t t' : Table) : Type 0 where
    pub sound : Filled t'
    pub same_len : t'.len ≡ t.len
    pub size : length t'.buckets ≡ n
    pub entries : (k : ℕ) → IsLive mix dead k → entry t' k ≡ entry t k

  module _ (skip : ℕ → Bool) (t : Table)
      (skipped : (k : ℕ) → skip k ≡ true → (j : ℕ) → IsLive mix dead j → j ≢ k)
      (copied : (k : ℕ) → skip k ≡ false → IsLive mix dead k) where
    moved_to :
        (n : ℕ)
        → IsPlaced mix dead t.buckets
        → IsSized (replicate n vacant)
        → 4 ≤ n
        → length t.buckets < n
        → t.len < n
        → used t.buckets ≤ t.len
        → (t' : Table) × (rebuilt t (rehash mix skip t.buckets (replicate n vacant))
            ≡ some (true, t'))
          × Grown n t t'
    moved_to n placed sized large room short counted =
        let (nb, run, size, placed', few, entries) =
          rehash-replicate mix dead skip skipped copied t.buckets n placed sized room in
        let t' : Table = record t { buckets = nb } in
        (
          t',
          ap (rebuilt t) run,
          record {
            sound = record {
              sized = (sized.0, size ∙ sym (length-replicate n vacant) ∙ sized.1);
              large = omega (arith, size);
              counted = omega (arith, few);
              room = omega (arith, size);
              placed = placed';
            };
            same_len = refl;
            size = size;
            entries = entries;
          },
        )

    -- From no buckets to the first power of two, or to twice as many.
    pub rebuilt-Grown :
        (start : ℕ)
        → IsSized (replicate start vacant)
        → 4 ≤ start
        → IsSound t
        → (t' : Table) × (rebuilt t (
              rehash mix skip t.buckets
                (replicate (if length t.buckets == 0 then start else length t.buckets * 2) vacant))
            ≡ some (true, t'))
          × Grown (if length t.buckets == 0 then start else length t.buckets * 2) t t'
    rebuilt-Grown start sized large (fresh none_yet zero_len) =
        let size = no_buckets t none_yet in
        rw (eq→== (length t.buckets) 0 size) (
          moved_to start (λ q h live. absurd (omega (arith, size))) sized large
            (omega (arith, size)) (omega (arith, zero_len)) (rw none_yet (omega (arith, used_nil))))
    rebuilt-Grown start sized large (filled f) =
        let cap = length t.buckets in
        let (m, size) = f.sized in
        rw (has_buckets t f) (
          moved_to (cap * 2) f.placed
            (suc m, length-replicate (cap * 2) vacant ∙ ap (λ t. t * 2) size ∙ sym (pow-suc 2 m))
            (omega (arith, f.large)) (omega (arith, f.large)) (omega (arith, f.room)) f.counted)

  -- The key has the value now, and every other key its own.
  pub record Put (t t' : Table) (key v : ℕ) : Type 0 where
    pub sound : Filled t'
    pub entries :
        (k : ℕ) → IsLive mix dead k → entry t' k ≡ (if k == key then some v else entry t k)

  module _ (t : Table) (key : ℕ) (live : IsLive mix dead key) (f : Filled t) where
    -- A bucket is written for the key where its walk ended, and `len` counts it if it was empty.
    pub written_Put :
        (p v len : ℕ)
        → p < length t.buckets
        → EndsAt p (seek mix t.buckets key)
        → (if key_at t.buckets p == 0 then suc (used t.buckets) else used t.buckets) ≤ len
        → len < length t.buckets
        → Put t
            (record { buckets = set t.buckets p (record { key = key; val = v }); len = len })
            key
            v
    written_Put p v len low at counted room =
        let bs = set t.buckets p (record { key = key; val = v }) in
        let size = length-set t.buckets p (record { key = key; val = v }) in
        record {
          sound = record {
            sized = (f.sized.0, size ∙ f.sized.1);
            large = omega (arith, size, f.large);
            counted =
                omega
                  (arith, used-set t.buckets p (record { key = key; val = v }) low live.0, counted);
            room = omega (arith, size, room);
            placed =
                set-IsPlaced mix dead t.buckets key p (record { key = key; val = v }) f.placed live
                  low at (live.0, inl refl);
          };
          entries =
              λ k live_k. assoc-put mix dead t.buckets key v p k f.placed live low at live_k.0;
        }

    pub stored_at : (p : ℕ) → seek mix t.buckets key ≡ found p → key_at t.buckets p ≢ 0
    stored_at p e z = live.0 (
        sym (
          subst (IsEnd t.buckets key) e
            (probe-IsEnd (length t.buckets) t.buckets key (home mix t.buckets key)))
        ∙ z)

    vacant_at : (p : ℕ) → seek mix t.buckets key ≡ vacancy p → key_at t.buckets p ≡ 0
    vacant_at p e =
        subst (IsEnd t.buckets key) e
          (probe-IsEnd (length t.buckets) t.buckets key (home mix t.buckets key))

    pub put_at-Put :
        (v : ℕ)
        → suc t.len < length t.buckets
        → (t' : Table) × (put_at t key v (seek mix t.buckets key) ≡ some (true, t'))
          × Put t t' key v
    unfolding put_at
    put_at-Put v spacious = by_end (seek mix t.buckets key) refl (walk_ends t key f)
      where
        by_end :
            (r : Probe)
            → seek mix t.buckets key ≡ r
            → EndsBelow (length t.buckets) r
            → (t' : Table) × (put_at t key v r ≡ some (true, t')) × Put t t' key v
        by_end (found p) e low = (
          _,
          refl,
          written_Put p v t.len low (subst (EndsAt p) (sym e) refl)
              (rw (ne→== (key_at t.buckets p) 0 (stored_at p e)) f.counted) f.room,
        )
        by_end (vacancy p) e low = (
          _,
          refl,
          written_Put p v (t.len + 1) low (subst (EndsAt p) (sym e) refl)
              (rw (eq→== (key_at t.buckets p) 0 (vacant_at p e)) (omega (arith, f.counted)))
              (omega (arith, spacious)),
        )
        by_end spinning e low = elim low [ ]
