-- ===== src/Migration/Renames.antt =====
-- Deleted fields that an added one of their shape could be (`wo_schema_diff` of database/src/wal.c).
use writeonce.Common.{
  ℕ, suc, ◌<◌, ◌≡◌, refl, Bool, true, false, not, ◌||◌, ◌&&◌, Option, none, some, List, [], ◌∷◌,
  length, get_or, All, if◌then◌else◌, ◌⊎◌, inl, inr, arith,
}
use writeonce.Schema.{SchemaField, SchemaClass, Schema}
use writeonce.Migration.{
  name_eq, no_field, find_in_fields, field_shape_eq, is_found, added_like, find_rename,
}
use writeonce.Migration.Maps.{AreSlots}

-- No deleted field has the shape of an added one.
abbrev pub HasNoRename :
    Schema → Schema → SchemaClass → SchemaClass → List SchemaField → List (Option ℕ) → Type 0
HasNoRename osc nsc ok nk [] ms = Unit
HasNoRename osc nsc ok nk (f ∷ fs) [] = Unit
HasNoRename osc nsc ok nk (f ∷ fs) (some i ∷ ms) = HasNoRename osc nsc ok nk fs ms
HasNoRename osc nsc ok nk (f ∷ fs) (none ∷ ms) =
    All
      (λ (g : SchemaField).
        (is_found (find_in_fields ok.fields g.name) ≡ true) ⊎ (field_shape_eq osc f nsc g ≡ false))
      nk.fields
    × HasNoRename osc nsc ok nk fs ms

-- A field that has no new one of its name, where an added one has its shape.
abbrev pub IsRenamed : Schema → Schema → SchemaClass → SchemaClass → List SchemaField → Type 0
IsRenamed osc nsc ok nk fs =
    (i : ℕ) × (j : ℕ) × (i < length fs)
    × (j < length nk.fields)
    × All (λ (g : SchemaField). name_eq g.name (get_or fs i no_field).name ≡ false) nk.fields
    × (is_found (find_in_fields ok.fields (get_or nk.fields j no_field).name) ≡ false)
    × (field_shape_eq osc (get_or fs i no_field) nsc (get_or nk.fields j no_field) ≡ true)

pub kept-HasNoRename :
    (osc nsc : Schema) (ok nk : SchemaClass) (fs : List SchemaField) (ms : List (Option ℕ))
    → All (λ (m : Option ℕ). is_found m ≡ true) ms
    → HasNoRename osc nsc ok nk fs ms
kept-HasNoRename osc nsc ok nk [] ms h = tt
kept-HasNoRename osc nsc ok nk (f ∷ fs) [] h = tt
kept-HasNoRename osc nsc ok nk (f ∷ fs) (some i ∷ ms) h = kept-HasNoRename osc nsc ok nk fs ms h.1
kept-HasNoRename osc nsc ok nk (f ∷ fs) (none ∷ ms) h = absurd (clash h.0)
  where
    clash : false ≡ true → ⊥
    clash e = cc

all_there :
    (osc nsc : Schema) (ok : SchemaClass) (f : SchemaField) (gs : List SchemaField)
    → All (λ (g : SchemaField). is_found (find_in_fields ok.fields g.name) ≡ true) gs
    → All
        (λ (g : SchemaField).
          (is_found (find_in_fields ok.fields g.name) ≡ true)
          ⊎ (field_shape_eq osc f nsc g ≡ false))
        gs
all_there osc nsc ok f [] h = tt
all_there osc nsc ok f (g ∷ gs) h = (inl h.0, all_there osc nsc ok f gs h.1)

pub none_added-HasNoRename :
    (osc nsc : Schema) (ok nk : SchemaClass) (fs : List SchemaField) (ms : List (Option ℕ))
    → All (λ (g : SchemaField). is_found (find_in_fields ok.fields g.name) ≡ true) nk.fields
    → HasNoRename osc nsc ok nk fs ms
none_added-HasNoRename osc nsc ok nk [] ms h = tt
none_added-HasNoRename osc nsc ok nk (f ∷ fs) [] h = tt
none_added-HasNoRename osc nsc ok nk (f ∷ fs) (some i ∷ ms) h =
    none_added-HasNoRename osc nsc ok nk fs ms h
none_added-HasNoRename osc nsc ok nk (f ∷ fs) (none ∷ ms) h =
    (all_there osc nsc ok f nk.fields h, none_added-HasNoRename osc nsc ok nk fs ms h)

-- What the search for an added field of a shape says.
abbrev IsLike : Schema → Schema → SchemaClass → SchemaField → List SchemaField → Bool → Type 0
IsLike osc nsc ok f gs false =
    All
      (λ (g : SchemaField).
        (is_found (find_in_fields ok.fields g.name) ≡ true) ⊎ (field_shape_eq osc f nsc g ≡ false))
      gs
IsLike osc nsc ok f gs true =
    (j : ℕ) × (j < length gs)
    × (is_found (find_in_fields ok.fields (get_or gs j no_field).name) ≡ false)
    × (field_shape_eq osc f nsc (get_or gs j no_field) ≡ true)

added_like-IsLike :
    (osc nsc : Schema) (ok : SchemaClass) (f : SchemaField) (gs : List SchemaField)
    → IsLike osc nsc ok f gs (added_like osc ok nsc f gs)
unfolding added_like
added_like-IsLike osc nsc ok f [] = tt
added_like-IsLike osc nsc ok f (g ∷ gs) =
    by_first (is_found (find_in_fields ok.fields g.name)) (field_shape_eq osc f nsc g)
      (added_like osc ok nsc f gs) refl refl (added_like-IsLike osc nsc ok f gs)
  where
    by_first :
        (a b r : Bool)
        → is_found (find_in_fields ok.fields g.name) ≡ a
        → field_shape_eq osc f nsc g ≡ b
        → IsLike osc nsc ok f gs r
        → IsLike osc nsc ok f (g ∷ gs) ((not a && b) || r)
    by_first false true r old shape rest = (0, omega arith, old, shape)
    by_first true b false old shape rest = (inl old, rest)
    by_first false false false old shape rest = (inr shape, rest)
    by_first true b true old shape (j, low, added, like) = (suc j, omega (arith, low), added, like)
    by_first false false true old shape (j, low, added, like) =
        (suc j, omega (arith, low), added, like)

module _ (osc nsc : Schema) (ok nk : SchemaClass) where
  abbrev pub IsSearched : List SchemaField → List (Option ℕ) → Option (List ℕ) → Type 0
  IsSearched fs ms none = HasNoRename osc nsc ok nk fs ms
  IsSearched fs ms (some name) = IsRenamed osc nsc ok nk fs

  pub find_rename-IsSearched :
      (fs : List SchemaField) (ms : List (Option ℕ))
      → AreSlots osc nsc nk fs ms
      → IsSearched fs ms (find_rename osc ok nsc nk fs ms)
  unfolding find_rename
  find_rename-IsSearched [] ms h = tt
  find_rename-IsSearched (f ∷ fs) [] h = tt
  find_rename-IsSearched (f ∷ fs) (some i ∷ ms) h =
      later (find_rename osc ok nsc nk fs ms) (find_rename-IsSearched fs ms h.1)
    where
      later : (r : Option (List ℕ)) → IsSearched fs ms r → IsSearched (f ∷ fs) (some i ∷ ms) r
      later none s = s
      later (some name) (k, j, low, inside, gone, added, like) =
          (suc k, j, omega (arith, low), inside, gone, added, like)
  find_rename-IsSearched (f ∷ fs) (none ∷ ms) h =
      by_like (added_like osc ok nsc f nk.fields) (added_like-IsLike osc nsc ok f nk.fields)
        (find_rename osc ok nsc nk fs ms) (find_rename-IsSearched fs ms h.1)
    where
      by_like :
          (b : Bool)
          → IsLike osc nsc ok f nk.fields b
          → (r : Option (List ℕ)) → IsSearched fs ms r
          → IsSearched (f ∷ fs) (none ∷ ms) (if b then some f.name else r)
      by_like true (j, low, added, shape) r s = (0, j, omega arith, low, h.0, added, shape)
      by_like false like none s = (like, s)
      by_like false like (some name) (k, j, low, inside, gone, added, same) =
          (suc k, j, omega (arith, low), inside, gone, added, same)
