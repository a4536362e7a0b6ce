-- ===== src/Tests/Migrations.antt =====
-- Migration plans on concrete schemas (database/src/wal.c).
use writeonce.Common.{
  ℕ, ◌≡◌, refl, Bool, true, false, none, some, List, [], ◌∷◌, All, inl, inr, arith, ap, get_or,
}
use writeonce.Engine.{kind_byte}
use writeonce.Schema.{SchemaField, Schema}
use writeonce.Migration.{
  Poison, embeds_changed, no_ref, name_eq, find_in_classes, find_in_fields, ref_eq, field_shape_eq,
  map_fields, count_deleted, count_added, added_like, find_rename, on_mapped, diff_class,
  diff_classes,
}
use writeonce.Migration.Closure.{
  embeds, any_dirty, is_tainted, find_tainted, close_class, close_round, close_loop,
}
use writeonce.Migration.Diff.{endless, planned, is_identity, schema_diff}
use writeonce.Migration.Same.{AreClassesNamed, IsRegular, all_kept}
use writeonce.Migration.Kept.{schema_diff-kept}
use writeonce.Migration.Plans.{IsPromised, schema_diff-IsPromised}
use writeonce.Tests.Records.{plenty}

abbrev number : ℕ → SchemaField
number name = record { name = name ∷ []; kind = 0; fclass = no_ref; felem = no_ref }

abbrev inside : ℕ → ℕ → SchemaField
inside name cid = record { name = name ∷ []; kind = 1; fclass = cid; felem = no_ref }

-- A class with an embedded one, and the embedded one with and without a second field.
abbrev old_schema : Schema
old_schema = record {
  classes =
      record { name = 80 ∷ []; flags = 0; fields = number 97 ∷ inside 98 1 ∷ [] }
      ∷ record { name = 81 ∷ []; flags = 0; fields = number 97 ∷ [] }
      ∷ [];
}

abbrev new_schema : Schema
new_schema = record {
  classes =
      record { name = 80 ∷ []; flags = 0; fields = number 97 ∷ inside 98 1 ∷ [] }
      ∷ record { name = 81 ∷ []; flags = 0; fields = number 97 ∷ number 99 ∷ [] }
      ∷ [];
}

abbrev all_told : Poison → Bool
all_told p = true

abbrev never_told : Poison → Bool
never_told p = false

-- A changed class refuses the class that embeds it.
embedding_refused :
    schema_diff plenty all_told old_schema new_schema
    ≡ planned (record {
      classes =
          record {
            new_cid = none;
            poison = some (embeds_changed (80 ∷ []) (98 ∷ []));
            old_field_cnt = 2;
            fmap = none;
            changed = false;
          }
          ∷ record {
            new_cid = some 1;
            poison = none;
            old_field_cnt = 1;
            fmap = some (some 0 ∷ []);
            changed = true;
          }
          ∷ [];
      identity = false;
    })
unfolding schema_diff diff_classes diff_class find_in_classes find_in_fields name_eq map_fields
    field_shape_eq ref_eq on_mapped count_deleted count_added find_rename added_like close_loop
    close_round close_class find_tainted is_tainted embeds any_dirty is_identity kind_byte
embedding_refused = refl

-- Without memory for the text of the refusal the closure loop goes round and round.
no_text : schema_diff plenty never_told old_schema new_schema ≡ endless
unfolding schema_diff diff_classes diff_class find_in_classes find_in_fields name_eq map_fields
    field_shape_eq ref_eq on_mapped count_deleted count_added find_rename added_like close_loop
    close_round close_class find_tainted is_tainted embeds any_dirty is_identity kind_byte
no_text = refl

schema_diff-IsPromised_example :
    IsPromised plenty old_schema new_schema (schema_diff plenty all_told old_schema new_schema)
schema_diff-IsPromised_example =
    schema_diff-IsPromised plenty all_told old_schema new_schema (λ p. refl)

old_schema-AreClassesNamed : AreClassesNamed old_schema.classes
old_schema-AreClassesNamed = ((differ, tt), (tt, tt))
  where
    differ : Path (List ℕ) (81 ∷ []) (80 ∷ []) → ⊥
    differ e = absurd (omega (arith, ap (λ (l : List ℕ). get_or l 0 0) e))

old_schema-IsRegular : All (λ k. IsRegular old_schema k) old_schema.classes
old_schema-IsRegular = (
  (((differ, tt), (tt, tt)), (inl refl, (inr (omega arith), tt))),
  (((tt, tt), (inl refl, tt)), tt),
)
  where
    differ : Path (List ℕ) (98 ∷ []) (97 ∷ []) → ⊥
    differ e = absurd (omega (arith, ap (λ (l : List ℕ). get_or l 0 0) e))

schema_diff-kept_example :
    schema_diff plenty never_told old_schema old_schema
    ≡ planned (record { classes = all_kept 0 old_schema.classes; identity = true })
schema_diff-kept_example =
    schema_diff-kept plenty never_told (λ n. refl) old_schema old_schema-AreClassesNamed
      old_schema-IsRegular
