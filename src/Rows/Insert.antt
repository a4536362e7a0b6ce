-- ===== src/Rows/Insert.antt =====
-- New rows of a resident table (database/src/table.c).
use writeonce.Common.{
  ltb, ℕ, zero, suc, ◌+◌, ◌-◌, ◌*◌, ◌%◌, ◌^◌, ◌&&◌, leb, ◌<◌, ◌≡◌, ◌≢◌, refl, ◌∙◌, sym, ap, subst,
  Bool, true, false, not, Option, none, some, length, eq-cases, ◌==◌, if◌then◌else◌, eq→==, ne→==,
  ◌⊎◌, inl, inr, arith,
}
use writeonce.Wire.{Memory, IsCapped}
use writeonce.Slots.{Row, Slots, row_at, slot_alloc, put_row}
use writeonce.Slots.Sound.{IsAllocated, slot_alloc-IsAllocated}
use writeonce.Slots.Use.{row_at-put_row, put_row-IsSlots}
use writeonce.IdHash.{IdHash}
use writeonce.IdHash.Sound.{IsId, IsHash, grown_cap}
use writeonce.IdHash.Writes.{hput-entry, after_put}
use writeonce.IdHash.Reads.{hget-entry, value_of}
use writeonce.Probing.Store.{entry}
use writeonce.Rows.{
  Shard, Indexing, RowTable, enter_raw, place_raw, row_create_raw, one_more, moved_id,
}
use writeonce.Rows.Sound.{IsPlacedAt, row_of, IsStore, look_in, idle-IsStore, Kept-IsStore}
use writeonce.Rows.Lookup.{IsTable, look, enter-IsStore}

-- An entry of 0 is none at all.
pub entry_none : (s : Slots) (id : ℕ) (o : Option ℕ) → IsPlacedAt s id o → value_of o ≡ 0 → o ≡ none
entry_none s id none p e = refl
entry_none s id (some zero) p e = elim p [ ]
entry_none s id (some (suc g)) p e = absurd (omega (arith, e))

pub entry_some :
    (s : Slots) (id : ℕ) (o : Option ℕ)
    → IsPlacedAt s id o
    → value_of o ≢ 0
    → (g : ℕ) × (o ≡ some (suc g))
entry_some s id none p e = absurd (e refl)
entry_some s id (some zero) p e = elim p [ ]
entry_some s id (some (suc g)) p e = (g, refl)

-- The next id of a shard moves behind an id of the shard that is not below it.
abbrev pub next_after : Shard → ℕ → ℕ → ℕ
next_after sh next id =
    if (id - 1) % sh.nshards == sh.shard && leb next id then (id + sh.nshards) % 2 ^ 64 else next

module _ (ix : Indexing) (mem : Memory) (sh : Shard) (t : RowTable (Indexing.Index ix)) (id : ℕ)
    (live : IsId id) where
  -- A refused row: the id has one, or memory was refused; no row has changed. Or the id, which had
  -- none, has a row of zeros, in the slot that is given back.
  abbrev pub IsCreated : Option ℕ → RowTable (Indexing.Index ix) → Type 0
  IsCreated none t' =
      (((r : Row) × (look ix t id ≡ some r)) ⊎ ((n : ℕ) × (mem n ≡ false)))
      × (t'.next_id ≡ t.next_id)
      × (t'.count ≡ t.count)
      × ((k : ℕ) → IsId k → look ix t' k ≡ look ix t k)
  IsCreated (some g) t' =
      (look ix t id ≡ none)
      × (entry t'.hash id ≡ some (suc g))
      × (t'.next_id ≡ next_after sh t.next_id id)
      × (t'.count ≡ one_more t.count)
      × ((k : ℕ)
          → IsId k
          → look ix t' k
            ≡ (if k == id then some (record { id = id; slots = t.zeros }) else look ix t k))

  place_raw-IsCreated :
      IsTable ix t
      → entry t.hash id ≡ none
      → (a : Option ℕ × Slots) → IsAllocated mem t.slots a
      → (r : Option ℕ) × (t' : RowTable (Indexing.Index ix)) × (place_raw ix mem sh id t a
          ≡ some (r, t'))
        × IsTable ix t'
        × IsCreated r t'
  unfolding place_raw enter_raw moved_id
  place_raw-IsCreated h absent (none, s) (kept, why) =
      let (store, same) = Kept-IsStore t.slots s t.hash h.store kept in
      (
        none,
        record t { slots = s },
        refl,
        record { resident = h.resident; store = store; indexed = h.indexed },
        (inr why, refl, refl, same),
      )
  place_raw-IsCreated h absent (some g, s) (kept, fresh) =
      let (h', good, run, hashed, why, entries) =
        hput-entry mem t.hash id (g + 1) live h.store.hashed in
      rw run (by_put good h' hashed why entries)
    where
      r : Row
      r = record { id = id; slots = t.zeros }

      low : g < length s.rows
      low = omega (arith, kept.sound.same_size, fresh.is_vacant.0)

      idle :
          IsStore (put_row s g r) t.hash
          × ((k : ℕ) → IsId k → look_in (put_row s g r) t.hash k ≡ look_in t.slots t.hash k)
      idle =
          idle-IsStore t.slots (put_row s g r) t.hash g h.store (put_row-IsSlots s g kept.sound r)
            (
              kept.grows,
              λ i other. (
                kept.same_bits i,
                row_at-put_row s g r low i
                    ∙ ap (λ (b : Bool). if b then r else row_at s i) (ne→== i g other)
                    ∙ kept.same_rows i,
              ),
            )
            (sym (kept.same_bits g) ∙ fresh.is_vacant.1)

      by_put :
          (good : Bool) (h' : IdHash)
          → IsHash h'
          → (good ≡ true)
            ⊎ ((ltb (t.hash.len * 10) (length t.hash.buckets * 7) ≡ false)
                × (mem (grown_cap t.hash * 8) ≡ false)
                × (h' ≡ t.hash))
          → ((k : ℕ) → IsId k → entry h' k ≡ after_put good t.hash id (g + 1) k)
          → (r : Option ℕ) × (t' : RowTable (Indexing.Index ix)) × (enter_raw ix sh id g
                (record t { slots = put_row s g (record { id = id; slots = t.zeros }) })
                (some (good, h'))
              ≡ some (r, t'))
            × IsTable ix t'
            × IsCreated r t'
      by_put true h' hashed why entries =
          let (store, looks) =
            enter-IsStore t.slots t.hash h.store id live s g r h' kept fresh refl hashed entries in
          (
            some g,
            _,
            refl,
            record { resident = h.resident; store = store; indexed = h.indexed },
            (
              ap (row_of t.slots) absent,
              entries id live
                  ∙ ap (λ (b : Bool). if b then some (g + 1) else entry t.hash id)
                      (eq→== id id refl)
                  ∙ ap (λ (n : ℕ). some n) (omega arith),
              refl,
              refl,
              looks,
            ),
          )
      by_put false h' hashed (inl e) entries = absurd (clash e)
        where
          clash : false ≡ true → ⊥
          clash e = cc
      by_put false h' hashed (inr (full, denied, same)) entries = (
        none,
        _,
        refl,
        record {
          resident = h.resident;
          store = subst (λ x. IsStore (put_row s g r) x) (sym same) idle.0;
          indexed = h.indexed;
        },
        (
          inr (grown_cap t.hash * 8, denied),
          refl,
          refl,
          subst (λ x. (k : ℕ) → IsId k → look_in (put_row s g r) x k ≡ look_in t.slots t.hash k)
              (sym same) idle.1,
        ),
      )

  pub row_create_raw-IsCreated :
      IsCapped mem
      → IsTable ix t
      → (r : Option ℕ) × (t' : RowTable (Indexing.Index ix)) × (row_create_raw ix mem sh t id
          ≡ some (r, t'))
        × IsTable ix t'
        × IsCreated r t'
  unfolding row_create_raw
  row_create_raw-IsCreated capped h =
      rw (ne→== id 0 live.0, hget-entry t.hash id h.store.hashed live)
        (by_entry (eq-cases (value_of (entry t.hash id)) 0))
    where
      placed : IsPlacedAt t.slots id (entry t.hash id)
      placed = h.store.placed id live

      by_entry :
          (value_of (entry t.hash id) ≡ 0) ⊎ (value_of (entry t.hash id) ≢ 0)
          → (r : Option ℕ) × (t' : RowTable (Indexing.Index ix)) × ((if not
                  (value_of (entry t.hash id) == 0)
                then some (none, t)
                else place_raw ix mem sh id t (slot_alloc mem t.row_size t.slots))
              ≡ some (r, t'))
            × IsTable ix t'
            × IsCreated r t'
      by_entry (inl z) = rw (eq→== (value_of (entry t.hash id)) 0 z) (
          place_raw-IsCreated h (entry_none t.slots id (entry t.hash id) placed z)
            (slot_alloc mem t.row_size t.slots)
            (slot_alloc-IsAllocated mem t.row_size t.slots capped h.store.slotted))
      by_entry (inr nz) =
          let (g, e) = entry_some t.slots id (entry t.hash id) placed nz in
          rw (ne→== (value_of (entry t.hash id)) 0 nz) (
            none,
            t,
            refl,
            h,
            (inl (row_at t.slots g, ap (row_of t.slots) e), refl, refl, λ k live_k. refl),
          )
