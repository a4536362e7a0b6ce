-- ===== src/Migration/Maps.antt =====
-- What one class of a migration plan says: refused, or a map of its fields (database/src/wal.c).
use writeonce.Common.{
  ℕ, suc, ◌<◌, ◌≡◌, refl, ap₂, Bool, true, false, ◌&&◌, Option, none, some, List, [], ◌∷◌, length,
  get_or, All, Bool-cases, ◌==◌, ==→eq, if◌then◌else◌, ◌⊎◌, inl, inr, arith,
}
use writeonce.Schema.{SchemaField, SchemaClass, Schema}
use writeonce.Migration.{
  name_eq, after_first, find_in_classes, find_in_fields, no_class, no_field, field_shape_eq,
  with_slot, map_fields,
}

pub name_eq-eq : (a b : List ℕ) → name_eq a b ≡ true → a ≡ b
unfolding name_eq
name_eq-eq [] [] e = refl
name_eq-eq [] (b ∷ bs) e = absurd (clash e)
  where
    clash : false ≡ true → ⊥
    clash e = cc
name_eq-eq (a ∷ rest) [] e = absurd (clash e)
  where
    clash : false ≡ true → ⊥
    clash e = cc
name_eq-eq (a ∷ rest) (b ∷ bs) e = by_head (a == b) refl (name_eq-eq rest bs) e
  where
    by_head :
        (t : Bool)
        → (a == b) ≡ t
        → (name_eq rest bs ≡ true → rest ≡ bs)
        → (t && name_eq rest bs) ≡ true
        → a ∷ rest ≡ b ∷ bs
    by_head true same tail e = ap₂ (λ x xs. x ∷ xs) (==→eq a b same) (tail e)
    by_head false same tail e = cc

-- Where a search by name ends.
abbrev pub IsFieldAt : List SchemaField → List ℕ → Option ℕ → Type 0
IsFieldAt fs name none = All (λ (f : SchemaField). name_eq f.name name ≡ false) fs
IsFieldAt fs name (some i) = (i < length fs) × ((get_or fs i no_field).name ≡ name)

pub find_in_fields-IsFieldAt :
    (fs : List SchemaField) (name : List ℕ) → IsFieldAt fs name (find_in_fields fs name)
unfolding find_in_fields
find_in_fields-IsFieldAt [] name = tt
find_in_fields-IsFieldAt (f ∷ fs) name = elim (Bool-cases (name_eq f.name name)) [
  | inl here ↦ rw here (omega arith, name_eq-eq f.name name here)
  | inr other ↦ rw other (on (find_in_fields fs name) (find_in_fields-IsFieldAt fs name) other)
]
  where
    on :
        (r : Option ℕ)
        → IsFieldAt fs name r
        → name_eq f.name name ≡ false
        → IsFieldAt (f ∷ fs) name (after_first r)
    on none h other = (other, h)
    on (some i) h other = (omega (arith, h.0), h.1)

abbrev pub IsClassAt : List SchemaClass → List ℕ → Option ℕ → Type 0
IsClassAt ks name none = All (λ (k : SchemaClass). name_eq k.name name ≡ false) ks
IsClassAt ks name (some i) = (i < length ks) × ((get_or ks i no_class).name ≡ name)

pub find_in_classes-IsClassAt :
    (ks : List SchemaClass) (name : List ℕ) → IsClassAt ks name (find_in_classes ks name)
unfolding find_in_classes
find_in_classes-IsClassAt [] name = tt
find_in_classes-IsClassAt (k ∷ ks) name = elim (Bool-cases (name_eq k.name name)) [
  | inl here ↦ rw here (omega arith, name_eq-eq k.name name here)
  | inr other ↦ rw other (on (find_in_classes ks name) (find_in_classes-IsClassAt ks name) other)
]
  where
    on :
        (r : Option ℕ)
        → IsClassAt ks name r
        → name_eq k.name name ≡ false
        → IsClassAt (k ∷ ks) name (after_first r)
    on none h other = (other, h)
    on (some i) h other = (omega (arith, h.0), h.1)

module _ (osc nsc : Schema) (nk : SchemaClass) where
  -- The new slot of an old field has its name and its shape; a deleted one has no field of its name.
  abbrev pub IsSlot : SchemaField → Option ℕ → Type 0
  IsSlot f none = All (λ (g : SchemaField). name_eq g.name f.name ≡ false) nk.fields
  IsSlot f (some i) =
      (i < length nk.fields)
      × ((get_or nk.fields i no_field).name ≡ f.name)
      × (field_shape_eq osc f nsc (get_or nk.fields i no_field) ≡ true)

  -- The map has a slot for each of the fields.
  abbrev pub AreSlots : List SchemaField → List (Option ℕ) → Type 0
  AreSlots [] [] = Unit
  AreSlots [] (m ∷ ms) = ⊥
  AreSlots (f ∷ fs) [] = ⊥
  AreSlots (f ∷ fs) (m ∷ ms) = IsSlot f m × AreSlots fs ms

  -- A field has another shape than the one of its name.
  abbrev pub IsRetyped : List SchemaField → Type 0
  IsRetyped fs =
      (i : ℕ) × (j : ℕ) × (i < length fs)
      × (j < length nk.fields)
      × ((get_or nk.fields j no_field).name ≡ (get_or fs i no_field).name)
      × (field_shape_eq osc (get_or fs i no_field) nsc (get_or nk.fields j no_field) ≡ false)

  abbrev pub IsMapping : List SchemaField → List (Option ℕ) ⊎ List ℕ → Type 0
  IsMapping fs (inl ms) = AreSlots fs ms
  IsMapping fs (inr name) = IsRetyped fs

  pub map_fields-IsMapping : (fs : List SchemaField) → IsMapping fs (map_fields osc nsc nk fs)
  unfolding map_fields
  map_fields-IsMapping [] = tt
  map_fields-IsMapping (f ∷ fs) =
      by_find (find_in_fields nk.fields f.name) (find_in_fields-IsFieldAt nk.fields f.name)
        (map_fields-IsMapping fs)
    where
      slot :
          (m : Option ℕ)
          → IsSlot f m
          → (r : List (Option ℕ) ⊎ List ℕ) → IsMapping fs r
          → IsMapping (f ∷ fs) (with_slot m r)
      slot m h (inl ms) hs = (h, hs)
      slot m h (inr name) (i, j, low, inside, named, other) =
          (suc i, j, omega (arith, low), inside, named, other)

      by_shape :
          (i : ℕ)
          → IsFieldAt nk.fields f.name (some i)
          → IsMapping fs (map_fields osc nsc nk fs)
          → (t : Bool) → field_shape_eq osc f nsc (get_or nk.fields i no_field) ≡ t
          → IsMapping
              (f ∷ fs)
              (if t then with_slot (some i) (map_fields osc nsc nk fs) else inr f.name)
      by_shape i at rest true same =
          slot (some i) (at.0, at.1, same) (map_fields osc nsc nk fs) rest
      by_shape i at rest false same = (0, i, omega arith, at.0, at.1, same)

      by_find :
          (m : Option ℕ)
          → IsFieldAt nk.fields f.name m
          → IsMapping fs (map_fields osc nsc nk fs)
          → IsMapping (f ∷ fs) (elim m [
            | none ↦ with_slot none (map_fields osc nsc nk fs)
            | some nf ↦
                if field_shape_eq osc f nsc (get_or nk.fields nf no_field)
                then with_slot (some nf) (map_fields osc nsc nk fs)
                else inr f.name
          ])
      by_find none at rest = slot none at (map_fields osc nsc nk fs) rest
      by_find (some i) at rest =
          by_shape i at rest (field_shape_eq osc f nsc (get_or nk.fields i no_field)) refl
