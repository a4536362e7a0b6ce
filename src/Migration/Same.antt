-- ===== src/Migration/Same.antt =====
-- The plan for a program with the schema that the log was written with (database/src/wal.c).
use writeonce.Common.{
  ℕ, zero, suc, ◌+◌, ◌<◌, ◌≡◌, ◌≢◌, refl, ◌∙◌, sym, ap, subst, Bool, true, false, Option, none,
  some, List, [], ◌∷◌, length, get_or, All, Bool-cases, ◌==◌, lt→leb, eq→==, ◌⊎◌, inl, inr, arith,
}
use writeonce.Schema.{SchemaField, SchemaClass, Schema}
use writeonce.Migration.{
  Poison, MigClass, no_ref, name_eq, after_first, find_in_classes, find_in_fields, no_class,
  no_field, ref_eq, field_shape_eq, with_slot, map_fields, count_deleted, count_added, on_mapped,
}
use writeonce.Migration.Maps.{name_eq-eq}

-- No two fields have a name, and no two classes.
abbrev pub AreFieldsNamed : List SchemaField → Type 0
AreFieldsNamed [] = Unit
AreFieldsNamed (f ∷ fs) = All (λ (g : SchemaField). g.name ≢ f.name) fs × AreFieldsNamed fs

abbrev pub AreClassesNamed : List SchemaClass → Type 0
AreClassesNamed [] = Unit
AreClassesNamed (k ∷ ks) = All (λ (l : SchemaClass). l.name ≢ k.name) ks × AreClassesNamed ks

-- A field refers to a class of the schema or to none.
abbrev pub IsReferring : Schema → SchemaField → Type 0
IsReferring sc f = (f.fclass ≡ no_ref) ⊎ (f.fclass < length sc.classes)

abbrev pub IsRegular : Schema → SchemaClass → Type 0
IsRegular sc k = AreFieldsNamed k.fields × All (λ f. IsReferring sc f) k.fields

-- Each field keeps its place.
abbrev pub own_slots : ℕ → List SchemaField → List (Option ℕ)
own_slots i [] = []
own_slots i (f ∷ fs) = some i ∷ own_slots (i + 1) fs

-- Each class keeps its number and its fields.
abbrev pub kept : ℕ → SchemaClass → MigClass
kept c k = record {
  new_cid = some c;
  poison = none;
  old_field_cnt = length k.fields;
  fmap = some (own_slots 0 k.fields);
  changed = false;
}

abbrev pub all_kept : ℕ → List SchemaClass → List MigClass
all_kept c [] = []
all_kept c (k ∷ ks) = kept c k ∷ all_kept (c + 1) ks

name_eq_refl : (a : List ℕ) → name_eq a a ≡ true
unfolding name_eq
name_eq_refl [] = refl
name_eq_refl (a ∷ rest) = rw (eq→== a a refl) (name_eq_refl rest)

name_eq-ne : (a b : List ℕ) → b ≢ a → name_eq a b ≡ false
name_eq-ne a b h = elim (Bool-cases (name_eq a b)) [
  | inl e ↦ absurd (h (sym (name_eq-eq a b e)))
  | inr e ↦ e
]

pub All-get_or :
    {A : Type 0} (P : A → Type 0) (xs : List A) (i : ℕ) (d : A)
    → All P xs
    → i < length xs
    → P (get_or xs i d)
All-get_or P [] i d h low = absurd (omega (arith, low))
All-get_or P (x ∷ xs) zero d h low = h.0
All-get_or P (x ∷ xs) (suc i) d h low = All-get_or P xs i d h.1 (omega (arith, low))

find_in_fields-own :
    (fs : List SchemaField) (i : ℕ)
    → AreFieldsNamed fs
    → i < length fs
    → find_in_fields fs (get_or fs i no_field).name ≡ some i
unfolding find_in_fields
find_in_fields-own [] i named low = absurd (omega (arith, low))
find_in_fields-own (f ∷ fs) zero named low = rw (name_eq_refl f.name) refl
find_in_fields-own (f ∷ fs) (suc i) named low =
    rw
      (name_eq-ne f.name (get_or fs i no_field).name (
        All-get_or (λ (g : SchemaField). g.name ≢ f.name) fs i no_field named.0
          (omega (arith, low))))
      (ap after_first (find_in_fields-own fs i named.1 (omega (arith, low))))

pub find_in_classes-own :
    (ks : List SchemaClass) (c : ℕ)
    → AreClassesNamed ks
    → c < length ks
    → find_in_classes ks (get_or ks c no_class).name ≡ some c
unfolding find_in_classes
find_in_classes-own [] c named low = absurd (omega (arith, low))
find_in_classes-own (k ∷ ks) zero named low = rw (name_eq_refl k.name) refl
find_in_classes-own (k ∷ ks) (suc c) named low =
    rw
      (name_eq-ne k.name (get_or ks c no_class).name (
        All-get_or (λ (l : SchemaClass). l.name ≢ k.name) ks c no_class named.0
          (omega (arith, low))))
      (ap after_first (find_in_classes-own ks c named.1 (omega (arith, low))))

ref_eq_refl :
    (sc : Schema) (fc : ℕ) → (fc ≡ no_ref) ⊎ (fc < length sc.classes) → ref_eq sc fc sc fc ≡ true
unfolding ref_eq
ref_eq_refl sc fc h = elim (Bool-cases (fc == no_ref)) [
  | inl e ↦ rw e (eq→== fc fc refl)
  | inr e ↦ elim h [
    | inl given ↦ absurd (clash (sym (eq→== fc no_ref given) ∙ e))
    | inr low ↦
        rw (e, lt→leb fc (length sc.classes) low)
          (name_eq_refl (get_or sc.classes fc no_class).name)
  ]
]
  where
    clash : true ≡ false → ⊥
    clash e = cc

field_shape_eq_refl :
    (sc : Schema) (f : SchemaField) → IsReferring sc f → field_shape_eq sc f sc f ≡ true
unfolding field_shape_eq
field_shape_eq_refl sc f h =
    rw (eq→== f.kind f.kind refl, eq→== f.felem f.felem refl) (ref_eq_refl sc f.fclass h)

-- The places of a tail of the fields.
abbrev pub IsTail : {A : Type 0} → List A → A → ℕ → List A → Type 0
IsTail all d i [] = Unit
IsTail all d i (x ∷ xs) = (i < length all) × (get_or all i d ≡ x) × IsTail all d (i + 1) xs

IsTail-cons :
    {A : Type 0} (all : List A) (d y : A) (i : ℕ) (xs : List A)
    → IsTail all d i xs
    → IsTail (y ∷ all) d (suc i) xs
IsTail-cons all d y i [] h = tt
IsTail-cons all d y i (x ∷ xs) h = (
  omega (arith, h.0),
  h.1,
  subst (λ j. IsTail (y ∷ all) d j xs) (omega arith) (IsTail-cons all d y (i + 1) xs h.2),
)

pub IsTail-all : {A : Type 0} (all : List A) (d : A) → IsTail all d 0 all
IsTail-all [] d = tt
IsTail-all (x ∷ xs) d = (
  omega arith,
  refl,
  subst (λ j. IsTail (x ∷ xs) d j xs) (omega arith) (IsTail-cons xs d x 0 xs (IsTail-all xs d)),
)

module _ (sc : Schema) (k : SchemaClass) (regular : IsRegular sc k) where
  map_fields-own :
      (i : ℕ) (fs : List SchemaField)
      → IsTail k.fields no_field i fs
      → map_fields sc sc k fs ≡ inl (own_slots i fs)
  unfolding map_fields
  map_fields-own i [] h = refl
  map_fields-own i (f ∷ fs) (low, same, rest) =
      let here : find_in_fields k.fields f.name ≡ some i =
        subst (λ (g : SchemaField). find_in_fields k.fields g.name ≡ some i) same
          (find_in_fields-own k.fields i regular.0 low) in
      let fits : IsReferring sc f =
        subst (IsReferring sc) same
          (All-get_or (IsReferring sc) k.fields i no_field regular.1 low) in
      let shape : field_shape_eq sc f sc (get_or k.fields i no_field) ≡ true =
        ap (field_shape_eq sc f sc) same ∙ field_shape_eq_refl sc f fits in
      rw (here, map_fields) (rw shape (ap (with_slot (some i)) (map_fields-own (i + 1) fs rest)))

  count_deleted-own : (i : ℕ) (fs : List SchemaField) → count_deleted (own_slots i fs) ≡ 0
  unfolding count_deleted
  count_deleted-own i [] = refl
  count_deleted-own i (f ∷ fs) = count_deleted-own (i + 1) fs

  count_added-own :
      (i : ℕ) (fs : List SchemaField) → IsTail k.fields no_field i fs → count_added k fs ≡ 0
  unfolding count_added
  count_added-own i [] h = refl
  count_added-own i (f ∷ fs) (low, same, rest) =
      let here : find_in_fields k.fields f.name ≡ some i =
        subst (λ (g : SchemaField). find_in_fields k.fields g.name ≡ some i) same
          (find_in_fields-own k.fields i regular.0 low) in
      rw here (count_added-own (i + 1) fs rest)

  pub on_mapped-own :
      (told : Poison → Bool) (c : ℕ)
      → on_mapped told sc k sc c k (map_fields sc sc k k.fields) ≡ kept c k
  unfolding on_mapped
  on_mapped-own told c = rw (map_fields-own 0 k.fields (IsTail-all k.fields no_field)) (
      rw (count_deleted-own 0 k.fields, count_added-own 0 k.fields (IsTail-all k.fields no_field))
        refl)
