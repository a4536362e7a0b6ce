-- ===== src/Slots/Use.antt =====
-- A slot comes into use and is given back (database/src/table.c).
use writeonce.Common.{
  ◌⊎◌, refl, ℕ, suc, ◌*◌, ◌≤◌, ◌<◌, ◌≡◌, ◌≢◌, ◌∙◌, sym, ap, Bool, true, false, List, [], ◌∷◌,
  length, get_or, set, ltb, ◌==◌, if◌then◌else◌, All, length-set, get_or-set_self, get_or-set_ne,
  eq-cases, Bool-cases, ltb→lt, ==→eq, ==→ne, eq→==, ne→==, inl, inr, arith,
}
use writeonce.Wire.{Memory}
use writeonce.Slots.{
  Row, no_row, Slots, row_at, bit_at, put_row, mark_bit, recycle, recycle_in_room,
}
use writeonce.Slots.Sound.{IsVacant, IsSlots, IsFresh}

module _ (s : Slots) (g : ℕ) where
  pub bit_at-mark_bit :
      (b : Bool)
      → g < length s.bits
      → (i : ℕ) → bit_at (mark_bit s g b) i ≡ (if i == g then b else bit_at s i)
  bit_at-mark_bit b low i = elim (eq-cases i g) [
    | inl same ↦
        rw (eq→== i g same)
          (ap (λ j. get_or (set s.bits g b) j false) same ∙ get_or-set_self s.bits g b false low)
    | inr other ↦ rw (ne→== i g other) (get_or-set_ne s.bits g i b false (λ e. other (sym e)))
  ]

  pub row_at-put_row :
      (r : Row)
      → g < length s.rows
      → (i : ℕ) → row_at (put_row s g r) i ≡ (if i == g then r else row_at s i)
  row_at-put_row r low i = elim (eq-cases i g) [
    | inl same ↦
        rw (eq→== i g same)
          (ap (λ j. get_or (set s.rows g r) j no_row) same ∙ get_or-set_self s.rows g r no_row low)
    | inr other ↦ rw (ne→== i g other) (get_or-set_ne s.rows g i r no_row (λ e. other (sym e)))
  ]

  -- What stays vacant when another slot is marked.
  still_vacant : (b : Bool) (i : ℕ) → i ≢ g → IsVacant s i → IsVacant (mark_bit s g b) i
  still_vacant b i other (low, clear) = (
    omega (arith, length-set s.bits g b, low),
    get_or-set_ne s.bits g i b false (λ e. other (sym e)) ∙ clear,
  )

  both :
      (b : Bool) (gs : List ℕ)
      → All (λ (h : ℕ). h ≢ g) gs
      → All (λ i. IsVacant s i) gs
      → All (λ i. IsVacant (mark_bit s g b) i) gs
  both b [] u v = tt
  both b (i ∷ gs) u v = (still_vacant b i u.0 v.0, both b gs u.1 v.1)

  -- The bits of free slots are clear, so that a slot in use is not listed.
  pub unlisted_used :
      (gs : List ℕ) → bit_at s g ≡ true → All (λ i. IsVacant s i) gs → All (λ (h : ℕ). h ≢ g) gs
  unlisted_used [] used v = tt
  unlisted_used (i ∷ gs) used v =
      (λ same. clash (sym (v.0.1) ∙ ap (bit_at s) same ∙ used), unlisted_used gs used v.1)
    where
      clash : false ≡ true → ⊥
      clash e = cc

  module _ (h : IsSlots s) where
    pub put_row-IsSlots : (r : Row) → IsSlots (put_row s g r)
    put_row-IsSlots r = record {
      slabs = h.slabs;
      whole = h.whole;
      few = h.few;
      same_size = length-set s.rows g r ∙ h.same_size;
      roomy = h.roomy;
      vacant = h.vacant;
      distinct = h.distinct;
    }

    pub mark_bit-IsSlots :
        (b : Bool) → All (λ (i : ℕ). i ≢ g) s.free_slots → IsSlots (mark_bit s g b)
    mark_bit-IsSlots b unlisted = record {
      slabs = h.slabs;
      whole = length-set s.bits g b ∙ h.whole;
      few = omega (arith, h.few, length-set s.bits g b);
      same_size = h.same_size ∙ sym (length-set s.bits g b);
      roomy = h.roomy;
      vacant = both b s.free_slots unlisted h.vacant;
      distinct = h.distinct;
    }

    -- A slot that may be given out is listed.
    listed :
        (cap : ℕ)
        → IsFresh s g
        → suc (length s.free_slots) ≤ cap
        → IsSlots (record s { free_slots = g ∷ s.free_slots; free_cap = cap })
    listed cap f room = record {
      slabs = h.slabs;
      whole = h.whole;
      few = h.few;
      same_size = h.same_size;
      roomy = room;
      vacant = (f.is_vacant, h.vacant);
      distinct = (f.unlisted, h.distinct);
    }

    pub recycle-IsSlots : (mem : Memory) → IsFresh s g → IsSlots (recycle mem s g)
    unfolding recycle
    recycle-IsSlots mem f = elim (Bool-cases (length s.free_slots == s.free_cap)) [
      | inr room ↦ rw room (
          listed s.free_cap f (omega (arith, h.roomy, ==→ne (length s.free_slots) s.free_cap room)))
      | inl full ↦
          let ncap = if s.free_cap == 0 then 16 else s.free_cap * 2 in
          elim (Bool-cases (mem (ncap * 4))) [
            | inr denied ↦ rw (full, denied) h
            | inl granted ↦
                rw (full, granted)
                  (listed ncap f (
                    wider s.free_cap (length s.free_slots)
                      (==→eq (length s.free_slots) s.free_cap full)))
          ]
    ]
      where
        wider : (cap n : ℕ) → n ≡ cap → suc n ≤ (if cap == 0 then 16 else cap * 2)
        wider cap n e = ground (arith, e)

    pub recycle_in_room-IsSlots : IsFresh s g → IsSlots (recycle_in_room s g)
    unfolding recycle_in_room
    recycle_in_room-IsSlots f = elim (Bool-cases (ltb (length s.free_slots) s.free_cap)) [
      | inl room ↦ rw room (listed s.free_cap f (ltb→lt (length s.free_slots) s.free_cap room))
      | inr full ↦ rw full h
    ]

-- The lists of free slots leave the rows and the bits alone.
module _ (s : Slots) (g : ℕ) where
  pub recycle-same :
      (mem : Memory) → ((recycle mem s g).rows ≡ s.rows) × ((recycle mem s g).bits ≡ s.bits)
  unfolding recycle
  recycle-same mem = ground arith

  pub recycle_in_room-same :
      ((recycle_in_room s g).rows ≡ s.rows) × ((recycle_in_room s g).bits ≡ s.bits)
  unfolding recycle_in_room
  recycle_in_room-same = ground arith

  -- The slot is listed, or memory for a longer list was refused.
  pub recycle-listed :
      (mem : Memory)
      → ((recycle mem s g).free_slots ≡ g ∷ s.free_slots)
        ⊎ (((recycle mem s g).free_slots ≡ s.free_slots) × ((n : ℕ) × (mem n ≡ false)))
  unfolding recycle
  recycle-listed mem = elim (Bool-cases (length s.free_slots == s.free_cap)) [
    | inr room ↦ rw room (inl refl)
    | inl full ↦ elim (Bool-cases (mem ((if s.free_cap == 0 then 16 else s.free_cap * 2) * 4))) [
      | inl granted ↦ rw (full, granted) (inl refl)
      | inr denied ↦
          rw (full, denied)
            (inr (refl, ((if s.free_cap == 0 then 16 else s.free_cap * 2) * 4, denied)))
    ]
  ]
