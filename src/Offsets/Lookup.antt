-- ===== src/Offsets/Lookup.antt =====
-- What a lookup in the offset map gives after an insertion (database/src/wal.c).
use writeonce.Common.{
  ℕ, suc, ◌*◌, ◌^◌, ◌<◌, ◌≡◌, ◌≢◌, refl, ◌∙◌, sym, ap, Bool, true, false, ◌&&◌, Option, some,
  length, length-replicate, Bool-cases, eq-cases, ◌==◌, if◌then◌else◌, eq→==, ne→==, ==→eq, ==→ne,
  inl, inr, ◌⊎◌, arith, leb, ◌-◌, leb→lt,
}
use writeonce.Wire.{Memory}
use writeonce.Probing.{Probe, found, vacancy, spinning, vacant, seek}
use writeonce.Probing.Placed.{IsLive}
use writeonce.Probing.Room.{EndsBelow}
use writeonce.Probing.Entries.{assoc, seek-assoc, val_of}
use writeonce.Probing.Store.{
  entry, Filled, IsSound, fresh, filled, rebuilt-Grown, no_buckets, has_buckets, put_at-Put,
  walk_ends,
}
use writeonce.Offsets.{
  MigMap, spread, stored, unused, migmap_grow, migmap_put_grown, migmap_put, mapped_at, migmap_get,
}

-- The invariant of the map; nothing is ever deleted from it.
abbrev pub IsMap : MigMap → Type 0
IsMap m = IsSound spread 0 m

-- An offset that a record may have.
abbrev pub IsOffset : ℕ → Type 0
IsOffset key = key < 2 ^ 64 - 1

stored-IsLive : (key : ℕ) → IsOffset key → IsLive spread 0 (stored key)
stored-IsLive key h = ((λ e. absurd (omega (arith, e))), (λ e. absurd (omega (arith, e))))

-- Stored keys are equal where the offsets are.
stored-== : (k key : ℕ) → IsOffset k → IsOffset key → (stored k == stored key) ≡ (k == key)
stored-== k key hk h = elim (eq-cases k key) [
  | inl same ↦ eq→== (stored k) (stored key) (ap stored same) ∙ sym (eq→== k key same)
  | inr other ↦
      ne→== (stored k) (stored key) (λ e. other (omega (arith, e))) ∙ sym (ne→== k key other)
]

module _ (m : MigMap) where
  read_at : (r : Probe) → EndsBelow (length m.buckets) r → mapped_at m r ≡ some (val_of m.buckets r)
  unfolding mapped_at
  read_at (found j) low = refl
  read_at (vacancy j) low = refl
  read_at spinning low = elim low [ ]

  migmap_get-entry :
      (key : ℕ) → IsMap m → IsOffset key → migmap_get m key ≡ some (entry m (stored key))
  unfolding migmap_get assoc
  migmap_get-entry key (fresh none_yet zero_len) h =
      rw (eq→== (length m.buckets) 0 (no_buckets m none_yet), none_yet) refl
  migmap_get-entry key (filled f) h = rw (has_buckets spread 0 m f) (
      read_at (seek spread m.buckets (stored key)) (walk_ends spread 0 m (stored key) f)
      ∙ ap (λ (o : Option ℕ). some o)
          (seek-assoc spread 0 m.buckets (stored key) f.placed (stored-IsLive key h)
            (walk_ends spread 0 m (stored key) f)))

-- The capacity that the map grows to.
abbrev pub larger : MigMap → ℕ
larger m = if length m.buckets == 0 then 1024 else length m.buckets * 2

unused-skipped : (k : ℕ) → unused k ≡ true → (j : ℕ) → IsLive spread 0 j → j ≢ k
unfolding unused
unused-skipped k e j live same = live.0 (same ∙ ==→eq k 0 e)

unused-copied : (k : ℕ) → unused k ≡ false → IsLive spread 0 k
unfolding unused
unused-copied k e = (==→ne k 0 e, ==→ne k 0 e)

larger-spacious : (m : MigMap) → IsMap m → suc m.len < larger m
larger-spacious m (fresh none_yet zero_len) =
    rw (eq→== (length m.buckets) 0 (no_buckets m none_yet)) (omega (arith, zero_len))
larger-spacious m (filled f) = rw (has_buckets spread 0 m f) (omega (arith, f.room, f.large))

-- What a lookup gives after an insertion, by the result of the insertion.
abbrev pub after_put : Bool → MigMap → ℕ → ℕ → ℕ → Option (Option ℕ)
after_put good m key val k = if good && k == key then some (some val) else migmap_get m k

module _ (mem : Memory) (m : MigMap) (key val : ℕ) (h : IsOffset key) where
  put_in_room :
      (m1 : MigMap)
      → IsMap m
      → Filled spread 0 m1
      → suc m1.len < length m1.buckets
      → ((k : ℕ) → IsLive spread 0 k → entry m1 k ≡ entry m k)
      → (m' : MigMap) × (migmap_put_grown key val (some (true, m1)) ≡ some (true, m'))
        × IsMap m'
        × ((k : ℕ) → IsOffset k → migmap_get m' k ≡ after_put true m key val k)
  unfolding migmap_put_grown
  put_in_room m1 sound f spacious same =
      let (m', run, put) =
        put_at-Put spread 0 m1 (stored key) (stored-IsLive key h) f val spacious in
      (
        m',
        run,
        filled put.sound,
        λ k low.
            migmap_get-entry m' k (filled put.sound) low
            ∙ ap (λ (o : Option ℕ). some o) (put.entries (stored k) (stored-IsLive k low))
            ∙ by_key k low,
      )
    where
      by_key :
          (k : ℕ)
          → IsOffset k
          → some (if stored k == stored key then some val else entry m1 (stored k))
            ≡ after_put true m key val k
      by_key k low =
          rw
            (
              stored-== k key low h,
              same (stored k) (stored-IsLive k low),
              migmap_get-entry m k sound low,
            )
            (if-some (k == key))
        where
          if-some :
              (b : Bool)
              → some (if b then some val else entry m (stored k))
                ≡ (if b then some (some val) else some (entry m (stored k)))
          if-some true = refl
          if-some false = refl

  grow_put :
      IsMap m
      → leb (length m.buckets) (m.len * 2) ≡ true
      → (m' : MigMap) × (good : Bool) × (migmap_put_grown key val (migmap_grow mem m)
          ≡ some (good, m'))
        × IsMap m'
        × ((good ≡ true)
            ⊎ ((leb (length m.buckets) (m.len * 2) ≡ true)
                × (mem (larger m * 8) ≡ false)
                × (m' ≡ m)))
        × ((k : ℕ) → IsOffset k → migmap_get m' k ≡ after_put good m key val k)
  unfolding migmap_put_grown migmap_grow
  grow_put sound full = elim (Bool-cases (mem (larger m * 8))) [
    | inl granted ↦
        let (m1, grew, g) =
          rebuilt-Grown spread 0 unused m unused-skipped unused-copied 1024
            (10, length-replicate 1024 vacant) (omega arith) sound in
        let (m', run, done, entries) =
          put_in_room m1 sound g.sound (omega (arith, g.same_len, g.size, larger-spacious m sound))
            g.entries in
        (m', true, rw granted (ap (migmap_put_grown key val) grew ∙ run), done, inl refl, entries)
    | inr refused ↦ (m, false, rw refused refl, sound, inr (full, refused, refl), λ k low. refl)
  ]

  -- A call of `migmap_put` ends. It fails only where the arrays are half full and memory for larger
  -- ones is refused, and then nothing has changed; else a lookup of the offset gives the new one, and a lookup of any
  -- other what it gave before.
  pub migmap_get-put :
      IsMap m
      → (m' : MigMap) × (good : Bool) × (migmap_put mem m key val ≡ some (good, m'))
        × IsMap m'
        × ((good ≡ true)
            ⊎ ((leb (length m.buckets) (m.len * 2) ≡ true)
                × (mem (larger m * 8) ≡ false)
                × (m' ≡ m)))
        × ((k : ℕ) → IsOffset k → migmap_get m' k ≡ after_put good m key val k)
  unfolding migmap_put
  migmap_get-put sound = by_load (leb (length m.buckets) (m.len * 2)) refl
    where
      in_place :
          IsMap m
          → m.len * 2 < length m.buckets
          → (m' : MigMap) × (good : Bool) × (migmap_put_grown key val (some (true, m))
              ≡ some (good, m'))
            × IsMap m'
            × ((good ≡ true)
                ⊎ ((leb (length m.buckets) (m.len * 2) ≡ true)
                    × (mem (larger m * 8) ≡ false)
                    × (m' ≡ m)))
            × ((k : ℕ) → IsOffset k → migmap_get m' k ≡ after_put good m key val k)
      in_place (fresh none_yet zero_len) room = absurd (omega (arith, room, no_buckets m none_yet))
      in_place (filled f) room =
          let (m', run, done, entries) =
            put_in_room m sound f (omega (arith, room, f.large)) (λ k live. refl) in
          (m', true, run, done, inl refl, entries)

      by_load :
          (b : Bool)
          → leb (length m.buckets) (m.len * 2) ≡ b
          → (m' : MigMap) × (good : Bool) × (migmap_put_grown key val
                (if b then migmap_grow mem m else some (true, m))
              ≡ some (good, m'))
            × IsMap m'
            × ((good ≡ true)
                ⊎ ((leb (length m.buckets) (m.len * 2) ≡ true)
                    × (mem (larger m * 8) ≡ false)
                    × (m' ≡ m)))
            × ((k : ℕ) → IsOffset k → migmap_get m' k ≡ after_put good m key val k)
      by_load true full = grow_put sound full
      by_load false room = in_place sound (leb→lt (length m.buckets) (m.len * 2) room)
