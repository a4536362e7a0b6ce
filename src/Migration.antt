-- ===== src/Migration.antt =====
-- The comparison of the stored schema with the compiled one (`wo_schema_diff` of database/src/wal.c),
-- which decides where the records of each stored class go.
-- The memory of the texts of a refusal is a parameter of its own, `told`.
pub mod Closure
pub mod Diff
pub mod Maps
pub mod Renames
pub mod Verdicts
pub mod Ends
pub mod Plans
pub mod Same
pub mod Kept
use writeonce.Common.{
  ℕ, zero, suc, ◌+◌, ◌*◌, Bool, true, false, not, ◌||◌, ◌&&◌, Option, none, some, List, [], ◌∷◌,
  length, get_or, set, ltb, leb, ◌==◌, if◌then◌else◌, max, ◌⊎◌, inl, inr,
}
use writeonce.Wire.{Memory}
use writeonce.Engine.{kind_byte, owned, multi, map}
use writeonce.Schema.{SchemaField, SchemaClass, Schema}

abbrev pub no_ref : ℕ
no_ref = 0xFFFFFFFF

-- Why the records of a class cannot be migrated, with the names in the message.
pub data Poison : Type 0 where
  vanished : List ℕ → Poison
  storage_changed : List ℕ → Poison
  retyped : List ℕ → List ℕ → Poison
  renamed : List ℕ → List ℕ → Poison
  embeds_changed : List ℕ → List ℕ → Poison

-- `new_cid` is `none` for WO_SCHEMA_NONE, `poison` and `fmap` are for NULL, an entry of `fmap` is
-- for -1.
pub record MigClass : Type 0 where
  pub new_cid : Option ℕ
  pub poison : Option Poison
  pub old_field_cnt : ℕ
  pub fmap : Option (List (Option ℕ))
  pub changed : Bool

unfoldable pub name_eq : List ℕ → List ℕ → Bool
name_eq [] [] = true
name_eq [] (b ∷ bs) = false
name_eq (a ∷ rest) [] = false
name_eq (a ∷ rest) (b ∷ bs) = a == b && name_eq rest bs

abbrev pub after_first : Option ℕ → Option ℕ
after_first none = none
after_first (some i) = some (suc i)

unfoldable pub find_in_classes : List SchemaClass → List ℕ → Option ℕ
unfolding name_eq
find_in_classes [] name = none
find_in_classes (k ∷ ks) name =
    if name_eq k.name name then some 0 else after_first (find_in_classes ks name)

unfoldable pub find_in_fields : List SchemaField → List ℕ → Option ℕ
unfolding name_eq
find_in_fields [] name = none
find_in_fields (f ∷ fs) name =
    if name_eq f.name name then some 0 else after_first (find_in_fields fs name)

abbrev pub no_class : SchemaClass
no_class = record { name = []; flags = 0; fields = [] }

abbrev pub no_field : SchemaField
no_field = record { name = []; kind = 0; fclass = 0; felem = 0 }

unfoldable pub ref_eq : Schema → ℕ → Schema → ℕ → Bool
unfolding name_eq
ref_eq osc ofc nsc nfc =
    if ofc == no_ref || nfc == no_ref
    then ofc == nfc
    else if leb (length osc.classes) ofc || leb (length nsc.classes) nfc
    then false
    else name_eq (get_or osc.classes ofc no_class).name (get_or nsc.classes nfc no_class).name

unfoldable pub field_shape_eq : Schema → SchemaField → Schema → SchemaField → Bool
unfolding ref_eq
field_shape_eq osc of nsc nf =
    of.kind == nf.kind && (of.felem == nf.felem && ref_eq osc of.fclass nsc nf.fclass)

abbrev pub with_slot : Option ℕ → List (Option ℕ) ⊎ List ℕ → List (Option ℕ) ⊎ List ℕ
with_slot slot (inl ms) = inl (slot ∷ ms)
with_slot slot (inr name) = inr name

-- The loop that fills `fmap`, or the name of the field that stops it.
unfoldable pub map_fields :
    Schema → Schema → SchemaClass → List SchemaField → List (Option ℕ) ⊎ List ℕ
unfolding find_in_fields field_shape_eq
map_fields osc nsc nk [] = inl []
map_fields osc nsc nk (f ∷ fs) =
    let rest = map_fields osc nsc nk fs in
    elim (find_in_fields nk.fields f.name) [
      | none ↦ with_slot none rest
      | some nf ↦
          if field_shape_eq osc f nsc (get_or nk.fields nf no_field)
          then with_slot (some nf) rest
          else inr f.name
    ]

unfoldable pub count_deleted : List (Option ℕ) → ℕ
count_deleted [] = 0
count_deleted (none ∷ ms) = suc (count_deleted ms)
count_deleted (some nf ∷ ms) = count_deleted ms

abbrev pub is_found : Option ℕ → Bool
is_found none = false
is_found (some i) = true

unfoldable pub count_added : SchemaClass → List SchemaField → ℕ
unfolding find_in_fields
count_added ok [] = 0
count_added ok (f ∷ fs) =
    if is_found (find_in_fields ok.fields f.name)
    then count_added ok fs
    else suc (count_added ok fs)

-- Whether some added field has the shape of `of`.
unfoldable pub added_like : Schema → SchemaClass → Schema → SchemaField → List SchemaField → Bool
unfolding find_in_fields field_shape_eq
added_like osc ok nsc of [] = false
added_like osc ok nsc of (g ∷ gs) =
    (not (is_found (find_in_fields ok.fields g.name)) && field_shape_eq osc of nsc g)
    || added_like osc ok nsc of gs

-- The first deleted field that an added one of its shape could be.
unfoldable pub find_rename :
    Schema
    → SchemaClass
    → Schema
    → SchemaClass
    → List SchemaField
    → List (Option ℕ)
    → Option (List ℕ)
unfolding added_like
find_rename osc ok nsc nk [] ms = none
find_rename osc ok nsc nk (f ∷ fs) [] = none
find_rename osc ok nsc nk (f ∷ fs) (some nf ∷ ms) = find_rename osc ok nsc nk fs ms
find_rename osc ok nsc nk (f ∷ fs) (none ∷ ms) =
    if added_like osc ok nsc f nk.fields then some f.name else find_rename osc ok nsc nk fs ms

-- free(mc->fmap); mc->new_cid = WO_SCHEMA_NONE; mc->poison = sc_poisonf(...)
abbrev pub poisoned : (Poison → Bool) → MigClass → Poison → MigClass
poisoned told mc p = record mc {
  new_cid = none;
  poison = if told p then some p else none;
  fmap = none;
}

abbrev pub unmatched : SchemaClass → MigClass
unmatched ok = record {
  new_cid = none;
  poison = none;
  old_field_cnt = length ok.fields;
  fmap = none;
  changed = false;
}

abbrev pub unless_renamed : (Poison → Bool) → SchemaClass → MigClass → Option (List ℕ) → MigClass
unless_renamed told ok mc none = mc
unless_renamed told ok mc (some name) = poisoned told mc (renamed ok.name name)

-- What follows the loop over the old fields.
unfoldable pub on_mapped :
    (Poison → Bool)
    → Schema
    → SchemaClass
    → Schema
    → ℕ
    → SchemaClass
    → List (Option ℕ) ⊎ List ℕ
    → MigClass
unfolding find_rename count_deleted count_added
on_mapped told osc ok nsc cid nk (inr name) = poisoned told (unmatched ok) (retyped ok.name name)
on_mapped told osc ok nsc cid nk (inl ms) =
    let deleted = ltb 0 (count_deleted ms) in
    let added = ltb 0 (count_added ok nk.fields) in
    let mc : MigClass = record {
      new_cid = some cid;
      poison = none;
      old_field_cnt = length ok.fields;
      fmap = some ms;
      changed = deleted || added;
    } in
    if deleted && added
    then unless_renamed told ok mc (find_rename osc ok nsc nk ok.fields ms)
    else mc

-- One round of the first loop; `none` where `fmap` gets no memory.
unfoldable pub diff_class :
    Memory → (Poison → Bool) → Schema → Schema → SchemaClass → Option MigClass
unfolding find_in_classes map_fields on_mapped
diff_class mem told osc nsc ok = elim (find_in_classes nsc.classes ok.name) [
  | none ↦ some (poisoned told (unmatched ok) (vanished ok.name))
  | some cid ↦
      let nk = get_or nsc.classes cid no_class in
      if not (ok.flags == nk.flags)
      then some (poisoned told (unmatched ok) (storage_changed ok.name))
      else if not (mem (max (length ok.fields) 1 * 4))
      then none
      else some (on_mapped told osc ok nsc cid nk (map_fields osc nsc nk ok.fields))
]

abbrev pub with_class : Option MigClass → Option (List MigClass) → Option (List MigClass)
with_class none rest = none
with_class (some mc) none = none
with_class (some mc) (some mcs) = some (mc ∷ mcs)

unfoldable pub diff_classes :
    Memory → (Poison → Bool) → Schema → Schema → List SchemaClass → Option (List MigClass)
unfolding diff_class
diff_classes mem told osc nsc [] = some []
diff_classes mem told osc nsc (ok ∷ oks) =
    with_class (diff_class mem told osc nsc ok) (diff_classes mem told osc nsc oks)
