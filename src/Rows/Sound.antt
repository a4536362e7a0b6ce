-- ===== src/Rows/Sound.antt =====
-- The invariant of a resident table, and its view as a finite map (database/src/table.c).
use writeonce.Common.{
  ℕ, zero, suc, ◌≤◌, ◌<◌, ◌≡◌, ◌≢◌, refl, ◌∙◌, sym, ap, subst, Bool, true, false, Option, none,
  some, length, eq-cases, ◌==◌, if◌then◌else◌, eq→==, ne→==, inl, inr, arith,
}
use writeonce.Slots.{Row, Slots, row_at, bit_at}
use writeonce.Slots.Sound.{get_or-beyond, IsSlots, Kept}
use writeonce.IdHash.{IdHash, hget}
use writeonce.IdHash.Sound.{IsId, IsHash}
use writeonce.IdHash.Reads.{hget-entry, value_of}
use writeonce.Probing.Store.{entry}

-- What the hash says of an id: nothing, or a slot in use that holds the row of the id.
abbrev pub IsPlacedAt : Slots → ℕ → Option ℕ → Type 0
IsPlacedAt s id none = Unit
IsPlacedAt s id (some zero) = ⊥
IsPlacedAt s id (some (suc g)) = (g < length s.bits) × (bit_at s g ≡ true) × ((row_at s g).id ≡ id)

-- The row at a value of the hash.
abbrev pub row_of : Slots → Option ℕ → Option Row
row_of s none = none
row_of s (some zero) = none
row_of s (some (suc g)) = some (row_at s g)

-- The slots and the hash of a table fit each other.
pub record IsStore (s : Slots) (h : IdHash) : Type 0 where
  pub hashed : IsHash h
  pub slotted : IsSlots s
  pub placed : (id : ℕ) → IsId id → IsPlacedAt s id (entry h id)

-- The store as a finite map from ids to rows.
abbrev pub look_in : Slots → IdHash → ℕ → Option Row
look_in s h id = row_of s (entry h id)

-- Two stores agree where they have the same hash entry, and the same row in its slot.
module _ (s s' : Slots) (h h' : IdHash) where
  -- The slots of all rows but that of `id` are left alone.
  abbrev pub IsUntouched : ℕ → Type 0
  IsUntouched g =
      (length s.bits ≤ length s'.bits)
      × ((i : ℕ) → i ≢ g → (bit_at s' i ≡ bit_at s i) × (row_at s' i ≡ row_at s i))

  other_placed :
      (k g : ℕ)
      → IsUntouched g
      → (o : Option ℕ) → IsPlacedAt s k o
      → ((i : ℕ) → o ≡ some (suc i) → i ≢ g)
      → IsPlacedAt s' k o × (row_of s' o ≡ row_of s o)
  other_placed k g u none p apart = (tt, refl)
  other_placed k g u (some zero) p apart = elim p [ ]
  other_placed k g u (some (suc i)) (low, used, named) apart =
      let (bit, row) = u.1 i (apart i refl) in
      (
        (omega (arith, low, u.0), bit ∙ used, ap (λ (r : Row). r.id) row ∙ named),
        ap (λ (r : Row). some r) row,
      )

  -- One id changes its entry, and only the slot `g` changes, which no other id has.
  pub changed-IsStore :
      (id g : ℕ) (now : Option ℕ)
      → IsStore s h
      → IsHash h'
      → IsSlots s'
      → IsUntouched g
      → ((k : ℕ) → IsId k → entry h' k ≡ (if k == id then now else entry h k))
      → IsPlacedAt s' id now
      → ((k : ℕ) → IsId k → k ≢ id → (i : ℕ) → entry h k ≡ some (suc i) → i ≢ g)
      → IsStore s' h'
        × ((k : ℕ) → IsId k → look_in s' h' k ≡ (if k == id then row_of s' now else look_in s h k))
  changed-IsStore id g now sound hashed slotted u entries here apart = (
    record { hashed = hashed; slotted = slotted; placed = λ k live. (at k live).0 },
    λ k live. (at k live).1,
  )
    where
      at :
          (k : ℕ)
          → IsId k
          → IsPlacedAt s' k (entry h' k)
            × (look_in s' h' k ≡ (if k == id then row_of s' now else look_in s h k))
      at k live = elim (eq-cases k id) [
        | inl same ↦
            let e : entry h' k ≡ now =
              entries k live ∙ ap (λ (t : Bool). if t then now else entry h k) (eq→== k id same) in
            rw (e, eq→== k id same) (subst (λ i. IsPlacedAt s' i now) (sym same) here, refl)
        | inr other ↦
            let e : entry h' k ≡ entry h k =
              entries k live ∙ ap (λ (t : Bool). if t then now else entry h k) (ne→== k id other) in
            rw (e, ne→== k id other)
              (other_placed k g u (entry h k) (sound.placed k live) (apart k live other))
      ]

module _ (s : Slots) (h : IdHash) (sound : IsStore s h) where
  -- A slot that is not in use is no row's.
  pub apart_vacant :
      (g : ℕ) → bit_at s g ≡ false → (k : ℕ) → IsId k → (i : ℕ) → entry h k ≡ some (suc i) → i ≢ g
  apart_vacant g clear k live i e same =
      let p = subst (IsPlacedAt s k) e (sound.placed k live) in
      clash (sym p.1 ∙ ap (bit_at s) same ∙ clear)
    where
      clash : true ≡ false → ⊥
      clash e = cc

  -- The slot of a row is not the one of another id.
  pub apart_used :
      (id g : ℕ)
      → (row_at s g).id ≡ id
      → (k : ℕ) → IsId k
      → k ≢ id
      → (i : ℕ) → entry h k ≡ some (suc i)
      → i ≢ g
  apart_used id g named k live other i e same =
      let p = subst (IsPlacedAt s k) e (sound.placed k live) in
      other (sym p.2 ∙ ap (λ j. (row_at s j).id) same ∙ named)

  pub look-hget : (id : ℕ) → IsId id → hget h id ≡ some (value_of (entry h id))
  look-hget id live = hget-entry h id sound.hashed live

-- A slot that nothing uses may change.
pub idle-IsStore :
    (s s' : Slots) (h : IdHash) (g : ℕ)
    → IsStore s h
    → IsSlots s'
    → IsUntouched s s' h h g
    → bit_at s g ≡ false
    → IsStore s' h × ((k : ℕ) → IsId k → look_in s' h k ≡ look_in s h k)
idle-IsStore s s' h g sound slotted u clear = (
  record { hashed = sound.hashed; slotted = slotted; placed = λ k live. (at k live).0 },
  λ k live. (at k live).1,
)
  where
    at :
        (k : ℕ)
        → IsId k
        → IsPlacedAt s' k (entry h k) × (row_of s' (entry h k) ≡ row_of s (entry h k))
    at k live =
        other_placed s s' h h k g u (entry h k) (sound.placed k live)
          (apart_vacant s h sound g clear k live)

pub Kept-IsStore :
    (s s' : Slots) (h : IdHash)
    → IsStore s h
    → Kept s s'
    → IsStore s' h × ((k : ℕ) → IsId k → look_in s' h k ≡ look_in s h k)
Kept-IsStore s s' h sound kept =
    idle-IsStore s s' h (length s.bits) sound kept.sound
      (kept.grows, λ i other. (kept.same_bits i, kept.same_rows i))
      (get_or-beyond s.bits (length s.bits) false (omega arith))
