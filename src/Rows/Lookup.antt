-- ===== src/Rows/Lookup.antt =====
-- A row comes into a slot, and leaves it; and a lookup of a row (database/src/table.c).
use writeonce.Common.{
  ℕ, zero, suc, ◌+◌, ◌-◌, ◌<◌, ◌≡◌, refl, ◌∙◌, sym, ap, subst, Bool, true, false, Option, none,
  some, List, length, length-set, get_or, ◌==◌, if◌then◌else◌, eq→==, ne→==, arith,
}
use writeonce.Slots.{Row, no_row, Slots, row_at, bit_at, put_row, mark_bit}
use writeonce.Slots.Sound.{IsSlots, IsFresh, Kept}
use writeonce.Slots.Use.{
  bit_at-mark_bit, row_at-put_row, put_row-IsSlots, mark_bit-IsSlots, unlisted_used,
}
use writeonce.IdHash.{IdHash}
use writeonce.IdHash.Sound.{IsId, IsHash}
use writeonce.IdHash.Writes.{after_put}
use writeonce.IdHash.Reads.{hget_ends, hget-entry, value_of, after_delete}
use writeonce.Probing.Store.{entry}
use writeonce.Rows.{Indexing, RowTable, slot_found, row_ptr}
use writeonce.Rows.Sound.{
  IsPlacedAt, row_of, IsStore, look_in, changed-IsStore, apart_vacant, apart_used,
}

-- What holds after an id has got a row.
abbrev pub IsEntered : Slots → IdHash → ℕ → Row → Slots → IdHash → Type 0
IsEntered s h id r s' h' =
    IsStore s' h'
    × ((k : ℕ) → IsId k → look_in s' h' k ≡ (if k == id then some r else look_in s h k))

-- What holds after an id has lost its row.
abbrev pub IsLeft : Slots → IdHash → ℕ → Slots → IdHash → Type 0
IsLeft s h id s' h' =
    IsStore s' h' × ((k : ℕ) → IsId k → look_in s' h' k ≡ (if k == id then none else look_in s h k))

module _ (s0 : Slots) (h : IdHash) (sound : IsStore s0 h) (id : ℕ) (live : IsId id) where
  -- The slot of an allocation is taken for the id.
  pub enter-IsStore :
      (s : Slots) (g : ℕ) (r : Row) (h' : IdHash)
      → Kept s0 s
      → IsFresh s g
      → r.id ≡ id
      → IsHash h'
      → ((k : ℕ) → IsId k → entry h' k ≡ after_put true h id (g + 1) k)
      → IsEntered s0 h id r (mark_bit (put_row s g r) g true) h'
  enter-IsStore s g r h' kept fresh named hashed entries =
      let p = put_row s g r in
      let s' = mark_bit p g true in
      let low : g < length s.rows = omega (arith, kept.sound.same_size, fresh.is_vacant.0) in
      let bits = bit_at-mark_bit p g true fresh.is_vacant.0 in
      let rows = row_at-put_row s g r low in
      let here : row_at s' g ≡ r =
        rows g ∙ ap (λ (t : Bool). if t then r else row_at s g) (eq→== g g refl) in
      let (done, looks) =
        changed-IsStore s0 s' h h' id g (some (suc g)) sound hashed
          (mark_bit-IsSlots p g (put_row-IsSlots s g kept.sound r) true fresh.unlisted)
          (
            omega (arith, kept.grows, length-set s.bits g true),
            λ i other. (
              bits i
                  ∙ ap (λ (t : Bool). if t then true else bit_at s i) (ne→== i g other)
                  ∙ kept.same_bits i,
              rows i
                  ∙ ap (λ (t : Bool). if t then r else row_at s i) (ne→== i g other)
                  ∙ kept.same_rows i,
            ),
          )
          (λ k live_k.
            entries k live_k ∙ ap (λ (v : ℕ). if k == id then some v else entry h k) (omega arith))
          (
            omega (arith, length-set s.bits g true, fresh.is_vacant.0),
            bits g ∙ ap (λ (t : Bool). if t then true else bit_at s g) (eq→== g g refl),
            ap (λ (r : Row). r.id) here ∙ named,
          )
          (λ k live_k other i e.
            apart_vacant s0 h sound g (sym (kept.same_bits g) ∙ fresh.is_vacant.1) k live_k i e) in
      (
        done,
        λ k live_k.
            looks k live_k ∙ ap (λ (x : Row). if k == id then some x else look_in s0 h k) here,
      )

  module _ (g : ℕ) (at : entry h id ≡ some (suc g)) where
    used_slot : IsPlacedAt s0 id (some (suc g))
    used_slot = subst (IsPlacedAt s0 id) at (sound.placed id live)

    -- The slot of a row can be given out once its bit is clear.
    pub cleared-IsFresh : IsFresh (mark_bit s0 g false) g
    cleared-IsFresh = record {
      is_vacant = (
        omega (arith, length-set s0.bits g false, used_slot.0),
        bit_at-mark_bit s0 g false used_slot.0 g
            ∙ ap (λ (t : Bool). if t then false else bit_at s0 g) (eq→== g g refl),
      );
      unlisted = unlisted_used s0 g s0.free_slots used_slot.1 sound.slotted.vacant;
    }

    pub cleared-IsSlots : IsSlots (mark_bit s0 g false)
    cleared-IsSlots =
        mark_bit-IsSlots s0 g sound.slotted false
          (unlisted_used s0 g s0.free_slots used_slot.1 sound.slotted.vacant)

    -- The slot of the id is cleared, and the id leaves the hash.
    pub leave-IsStore :
        (s' : Slots) (h' : IdHash)
        → IsSlots s'
        → s'.rows ≡ s0.rows
        → s'.bits ≡ (mark_bit s0 g false).bits
        → IsHash h'
        → ((k : ℕ) → IsId k → entry h' k ≡ after_delete h id k)
        → IsLeft s0 h id s' h'
    leave-IsStore s' h' slotted rows bits hashed entries =
        changed-IsStore s0 s' h h' id g none sound hashed slotted
          (
            omega (arith, ap (λ (l : List Bool). length l) bits, length-set s0.bits g false),
            λ i other. (
              ap (λ l. get_or l i false) bits
                  ∙ bit_at-mark_bit s0 g false used_slot.0 i
                  ∙ ap (λ (t : Bool). if t then false else bit_at s0 i) (ne→== i g other),
              ap (λ l. get_or l i no_row) rows,
            ),
          )
          entries tt (apart_used s0 h sound id g used_slot.2)

-- The invariant of a resident table.
pub record IsTable (ix : Indexing) (t : RowTable (Indexing.Index ix)) : Type 0 where
  pub resident : t.keys ≡ false
  pub store : IsStore t.slots t.hash
  pub indexed : Indexing.IsIndex ix t.index

-- A table as a finite map from ids to rows.
abbrev pub look : (ix : Indexing) → RowTable (Indexing.Index ix) → ℕ → Option Row
look ix t k = look_in t.slots t.hash k

-- A read of any id ends.
pub row_ptr_ends :
    (ix : Indexing) (t : RowTable (Indexing.Index ix)) (id : ℕ)
    → IsHash t.hash
    → (o : Option Row) × (row_ptr ix t id ≡ some o)
unfolding row_ptr
row_ptr_ends ix t id hashed =
    let (v, run) = hget_ends t.hash id hashed in rw (run, row_ptr) (slot_found ix t v, refl)

-- The row of an id in a resident table, or none.
module _ (ix : Indexing) where
  slot_found-value_of :
      (t : RowTable (Indexing.Index ix)) (id : ℕ) (o : Option ℕ)
      → t.keys ≡ false
      → IsPlacedAt t.slots id o
      → slot_found ix t (value_of o) ≡ row_of t.slots o
  unfolding slot_found
  slot_found-value_of t id none resident p = refl
  slot_found-value_of t id (some zero) resident p = elim p [ ]
  slot_found-value_of t id (some (suc g)) resident p =
      let there : (suc g == 0) ≡ false = ne→== (suc g) 0 (λ e. absurd (omega (arith, e))) in
      let back : suc g - 1 ≡ g = omega arith in rw (there, resident, back) refl

  -- A call of wo_row_ptr on a resident table whose hash and slots fit each other, for an id that a
  -- row can have, ends and gives the row that they hold for the id, or none.
  pub row_ptr-look :
      (t : RowTable (Indexing.Index ix)) (id : ℕ)
      → t.keys ≡ false
      → IsStore t.slots t.hash
      → IsId id
      → row_ptr ix t id ≡ some (look_in t.slots t.hash id)
  unfolding row_ptr
  row_ptr-look t id resident sound live =
      rw (hget-entry t.hash id sound.hashed live, row_ptr)
        (ap (λ (o : Option Row). some o)
          (slot_found-value_of t id (entry t.hash id) resident (sound.placed id live)))
