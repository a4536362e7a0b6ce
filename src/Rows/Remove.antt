-- ===== src/Rows/Remove.antt =====
-- A row is deleted, and a row goes on in the log (`wo_row_remove` and `wo_row_drop_payload` of
-- database/src/table.c).
use writeonce.Common.{
  ℕ, suc, ◌∷◌, get_or, subst, ◌-◌, ◌≡◌, ◌≢◌, refl, ◌∙◌, sym, ap, Bool, true, false, Option, none,
  some, eq-cases, ◌==◌, if◌then◌else◌, eq→==, ne→==, ◌⊎◌, inl, inr, arith,
}
use writeonce.Wire.{Memory}
use writeonce.Slots.{Row, row_at, bit_at, mark_bit, recycle}
use writeonce.Slots.Use.{recycle-IsSlots, recycle-same, recycle-listed, bit_at-mark_bit}
use writeonce.IdHash.Sound.{IsId}
use writeonce.IdHash.Reads.{hget-entry, hdel-entry, value_of}
use writeonce.Probing.Store.{entry}
use writeonce.Rows.{Borrow, Indexing, RowTable, remove_keys, remove_slot, row_remove, one_less}
use writeonce.Rows.Sound.{IsPlacedAt, row_of}
use writeonce.Rows.Lookup.{IsTable, look, leave-IsStore, cleared-IsFresh, cleared-IsSlots}
use writeonce.Rows.Insert.{entry_none, entry_some}

abbrev pub is_row : Option Row → Bool
is_row none = false
is_row (some r) = true

module _ (ix : Indexing) (mem : Memory) (t : RowTable (Indexing.Index ix)) (id : ℕ) where
  -- The table without the row at `g`: the slot is no longer in use and is listed as free, unless memory for
  -- the list was refused; the indexes have removed the row; it is not counted.
  abbrev pub IsGiven : Bool → RowTable (Indexing.Index ix) → Type 0
  IsGiven false t' = t' ≡ t
  IsGiven true t' =
      (g : ℕ) × (entry t.hash id ≡ some (suc g))
      × (Indexing.remove_row ix t.index (row_at t.slots g) ≡ some t'.index)
      × ((i : ℕ) → bit_at t'.slots i ≡ (if i == g then false else bit_at t.slots i))
      × ((t'.slots.free_slots ≡ g ∷ t.slots.free_slots)
          ⊎ ((t'.slots.free_slots ≡ t.slots.free_slots) × ((n : ℕ) × (mem n ≡ false))))
      × (t'.count ≡ one_less t.count)
      × (t'.next_id ≡ t.next_id)

  -- Nothing was to delete; or the id had a row, and has none.
  abbrev pub IsRemoved : Bool → RowTable (Indexing.Index ix) → Type 0
  IsRemoved good t' =
      (good ≡ is_row (look ix t id))
      × ((k : ℕ) → IsId k → look ix t' k ≡ (if k == id then none else look ix t k))
      × IsGiven good t'

  abbrev IsDone : Option (Bool × RowTable (Indexing.Index ix)) → Type 0
  IsDone o =
      (good : Bool) × (t' : RowTable (Indexing.Index ix)) × (o ≡ some (good, t'))
      × IsTable ix t'
      × IsRemoved good t'

  module _ (live : IsId id) (h : IsTable ix t) where
    slot_removed : (g : ℕ) → entry t.hash id ≡ some (suc g) → IsDone (remove_slot ix mem t id g)
    unfolding remove_slot
    slot_removed g at =
        let (x, forgot, indexed) = Indexing.remove_ends ix t.index (row_at t.slots g) h.indexed in
        let (h', run, hashed, gone) = hdel-entry t.hash id h.store.hashed live in
        let m = mark_bit t.slots g false in
        let (rows, bits) = recycle-same m g mem in
        let (store, looks) =
          leave-IsStore t.slots t.hash h.store id live g at (recycle mem m g) h'
            (recycle-IsSlots m g (cleared-IsSlots t.slots t.hash h.store id live g at) mem
              (cleared-IsFresh t.slots t.hash h.store id live g at))
            rows bits hashed gone in
        rw (forgot, remove_slot, run)
          (
            true,
            _,
            refl,
            record { resident = h.resident; store = store; indexed = indexed },
            (
              sym (ap (λ e. is_row (row_of t.slots e)) at),
              looks,
              (
                g,
                at,
                forgot,
                λ i.
                    ap (λ bs. get_or bs i false) bits
                    ∙ bit_at-mark_bit t.slots g false
                        (subst (IsPlacedAt t.slots id) at (h.store.placed id live)).0 i,
                recycle-listed m g mem,
                refl,
                refl,
              ),
            ),
          )

    still : look ix t id ≡ none → (k : ℕ) → look ix t k ≡ (if k == id then none else look ix t k)
    still absent k = elim (eq-cases k id) [
      | inl same ↦ rw (eq→== k id same) (ap (look ix t) same ∙ absent)
      | inr other ↦ rw (ne→== k id other) refl
    ]

    pub row_remove-IsRemoved :
        (borrow : Borrow)
        → (good : Bool) × (t' : RowTable (Indexing.Index ix)) × (row_remove ix mem borrow t id
            ≡ some (good, t'))
          × IsTable ix t'
          × IsRemoved good t'
    unfolding row_remove
    row_remove-IsRemoved borrow =
        rw (hget-entry t.hash id h.store.hashed live, row_remove)
          (by_entry (eq-cases (value_of (entry t.hash id)) 0))
      where
        p : IsPlacedAt t.slots id (entry t.hash id)
        p = h.store.placed id live

        by_entry :
            (value_of (entry t.hash id) ≡ 0) ⊎ (value_of (entry t.hash id) ≢ 0)
            → IsDone (
                if value_of (entry t.hash id) == 0
                then some (false, t)
                else if t.keys
                then remove_keys ix t id (borrow id)
                else remove_slot ix mem t id (value_of (entry t.hash id) - 1))
        by_entry (inl z) =
            let absent = ap (row_of t.slots) (entry_none t.slots id (entry t.hash id) p z) in
            rw (eq→== (value_of (entry t.hash id)) 0 z)
              (false, t, refl, h, (sym (ap is_row absent), λ k live_k. still absent k, refl))
        by_entry (inr nz) =
            let (g, e) = entry_some t.slots id (entry t.hash id) p nz in
            let back : value_of (entry t.hash id) - 1 ≡ g =
              ap (λ o. value_of o - 1) e ∙ omega arith in
            let (good, t', run, kept, rest) = slot_removed g e in
            (
              good,
              t',
              ap
                    (λ (b : Bool).
                      if b
                      then some (false, t)
                      else if t.keys
                      then remove_keys ix t id (borrow id)
                      else remove_slot ix mem t id (value_of (entry t.hash id) - 1))
                    (ne→== (value_of (entry t.hash id)) 0 nz)
                  ∙ ap
                      (λ (b : Bool).
                        if b
                        then remove_keys ix t id (borrow id)
                        else remove_slot ix mem t id (value_of (entry t.hash id) - 1))
                      h.resident
                  ∙ ap (remove_slot ix mem t id) back
                  ∙ run,
              kept,
              rest,
            )
