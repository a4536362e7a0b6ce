-- ===== src/Migration/Verdicts.antt =====
-- What one class of a migration plan says: it is refused, or its records go to a class of the same
-- name (database/src/wal.c).
use writeonce.Common.{
  ℕ, suc, ◌*◌, ◌<◌, ◌≡◌, ◌≢◌, refl, ==→ne, Bool, true, false, not, ◌||◌, ◌&&◌, Option, none, some,
  List, [], ◌∷◌, length, get_or, All, Bool-cases, ltb, ◌==◌, ==→eq, ltb→le, if◌then◌else◌, max, ◌⊎◌,
  inl, inr, arith,
}
use writeonce.Wire.{Memory}
use writeonce.Schema.{SchemaField, SchemaClass, Schema}
use writeonce.Migration.{
  name_eq, no_field, Poison, MigClass, find_in_classes, find_in_fields, no_class, map_fields,
  count_deleted, is_found, count_added, find_rename, poisoned, unmatched, unless_renamed, on_mapped,
  diff_class, diff_classes, with_class, vanished, storage_changed,
}
use writeonce.Migration.Closure.{has_poison, embeds}
use writeonce.Migration.Renames.{
  HasNoRename, IsRenamed, kept-HasNoRename, none_added-HasNoRename, IsSearched,
  find_rename-IsSearched,
}
use writeonce.Migration.Maps.{
  AreSlots, IsRetyped, map_fields-IsMapping, IsMapping, IsClassAt, find_in_classes-IsClassAt,
}

-- A field of the class may embed another class.
abbrev pub HasEmbedded : SchemaClass → Type 0
HasEmbedded k = (i : ℕ) × (i < length k.fields) × (embeds (get_or k.fields i no_field).kind ≡ true)

-- A refusal: no new class, no map of fields, and a reason.
pub record IsRefused (mc : MigClass) : Type 0 where
  pub reason : has_poison mc ≡ true
  pub nowhere : mc.new_cid ≡ none
  pub unmapped : mc.fmap ≡ none

-- Every old field is kept, and every new field was there.
abbrev pub IsSameFields : SchemaClass → SchemaClass → List (Option ℕ) → Type 0
IsSameFields ok nk ms =
    All (λ (m : Option ℕ). is_found m ≡ true) ms
    × All (λ (g : SchemaField). is_found (find_in_fields ok.fields g.name) ≡ true) nk.fields

-- The class with the number in the new schema has the name of an old one.
abbrev pub IsNamesake : Schema → SchemaClass → ℕ → Type 0
IsNamesake nsc ok cid =
    (cid < length nsc.classes) × ((get_or nsc.classes cid no_class).name ≡ ok.name)

-- Why the records of a class cannot be taken over.
pub data Reason (osc nsc : Schema) (ok : SchemaClass) : Type 0 where
  no_namesake :
      All (λ (k : SchemaClass). name_eq k.name ok.name ≡ false) nsc.classes → Reason osc nsc ok
  other_flags :
      (cid : ℕ)
      → IsNamesake nsc ok cid
      → ok.flags ≢ (get_or nsc.classes cid no_class).flags
      → Reason osc nsc ok
  other_shape :
      (cid : ℕ)
      → IsNamesake nsc ok cid
      → IsRetyped osc nsc (get_or nsc.classes cid no_class) ok.fields
      → Reason osc nsc ok
  maybe_renamed :
      (cid : ℕ)
      → IsNamesake nsc ok cid
      → IsRenamed osc nsc ok (get_or nsc.classes cid no_class) ok.fields
      → Reason osc nsc ok
  embedding : HasEmbedded ok → Reason osc nsc ok

-- A class whose records can go to a class of the same name and storage.
pub record IsMapped (osc nsc : Schema) (ok : SchemaClass) (mc : MigClass) : Type 0 where
  pub cid : ℕ
  pub slots : List (Option ℕ)
  pub goes : mc.new_cid ≡ some cid
  pub maps : mc.fmap ≡ some slots
  pub known : cid < length nsc.classes
  pub same_name : (get_or nsc.classes cid no_class).name ≡ ok.name
  pub same_flags : ok.flags ≡ (get_or nsc.classes cid no_class).flags
  pub fields : AreSlots osc nsc (get_or nsc.classes cid no_class) ok.fields slots
  pub not_renamed : HasNoRename osc nsc ok (get_or nsc.classes cid no_class) ok.fields slots
  pub unchanged : (mc.changed ≡ true) ⊎ IsSameFields ok (get_or nsc.classes cid no_class) slots

pub data Verdict (osc nsc : Schema) (ok : SchemaClass) (mc : MigClass) : Type 0 where
  refused : IsRefused mc → Reason osc nsc ok → Verdict osc nsc ok mc
  mapped : IsMapped osc nsc ok mc → Verdict osc nsc ok mc

-- A verdict for each class.
abbrev pub Verdicts : Schema → Schema → List SchemaClass → List MigClass → Type 0
Verdicts osc nsc [] [] = Unit
Verdicts osc nsc [] (mc ∷ mcs) = ⊥
Verdicts osc nsc (ok ∷ oks) [] = ⊥
Verdicts osc nsc (ok ∷ oks) (mc ∷ mcs) = Verdict osc nsc ok mc × Verdicts osc nsc oks mcs

-- What holds of a result, which is missing only where memory is refused.
abbrev pub Judged : {A : Type 0} → Memory → (A → Type 0) → Option A → Type 0
Judged mem P none = (n : ℕ) × (mem n ≡ false)
Judged mem P (some a) = P a

no_deleted :
    (ms : List (Option ℕ))
    → ltb 0 (count_deleted ms) ≡ false
    → All (λ (m : Option ℕ). is_found m ≡ true) ms
unfolding count_deleted
no_deleted [] e = tt
no_deleted (none ∷ ms) e = absurd (omega (arith, ltb→le 0 (suc (count_deleted ms)) e))
no_deleted (some i ∷ ms) e = (refl, no_deleted ms e)

no_added :
    (ok : SchemaClass) (gs : List SchemaField)
    → ltb 0 (count_added ok gs) ≡ false
    → All (λ (g : SchemaField). is_found (find_in_fields ok.fields g.name) ≡ true) gs
unfolding count_added
no_added ok [] e = tt
no_added ok (g ∷ gs) e = elim (Bool-cases (is_found (find_in_fields ok.fields g.name))) [
  | inl there ↦ (there, no_added ok gs (rw there at e))
  | inr new ↦ absurd (omega (arith, ltb→le 0 (suc (count_added ok gs)) (rw new at e)))
]

-- Memory is there for the text of every refusal.
abbrev pub IsTold : (Poison → Bool) → Type 0
IsTold told = (p : Poison) → told p ≡ true

module _ (told : Poison → Bool) (all_told : IsTold told) where
  pub poisoned-IsRefused : (mc : MigClass) (p : Poison) → IsRefused (poisoned told mc p)
  poisoned-IsRefused mc p = record {
    reason = rw (all_told p) refl;
    nowhere = refl;
    unmapped = refl;
  }

  module _ (osc nsc : Schema) (ok : SchemaClass) (cid : ℕ) where
    on_mapped-Verdict :
        (r : List (Option ℕ) ⊎ List ℕ)
        → cid < length nsc.classes
        → (get_or nsc.classes cid no_class).name ≡ ok.name
        → ok.flags ≡ (get_or nsc.classes cid no_class).flags
        → IsMapping osc nsc (get_or nsc.classes cid no_class) ok.fields r
        → Verdict osc nsc ok (on_mapped told osc ok nsc cid (get_or nsc.classes cid no_class) r)
    unfolding on_mapped
    on_mapped-Verdict (inr name) known named flags h =
        refused (poisoned-IsRefused (unmatched ok) _) (other_shape cid (known, named) h)
    on_mapped-Verdict (inl ms) known named flags h =
        by_rename (ltb 0 (count_deleted ms))
          (ltb 0 (count_added ok (get_or nsc.classes cid no_class).fields)) refl refl
          (find_rename osc ok nsc (get_or nsc.classes cid no_class) ok.fields ms)
          (find_rename-IsSearched osc nsc ok (get_or nsc.classes cid no_class) ok.fields ms h)
      where
        whole : Bool → MigClass
        whole changed = record {
          new_cid = some cid;
          poison = none;
          old_field_cnt = length ok.fields;
          fmap = some ms;
          changed = changed;
        }

        mapping :
            (changed : Bool)
            → HasNoRename osc nsc ok (get_or nsc.classes cid no_class) ok.fields ms
            → (changed ≡ true) ⊎ IsSameFields ok (get_or nsc.classes cid no_class) ms
            → Verdict osc nsc ok (whole changed)
        mapping changed free same = mapped (record {
          cid = cid;
          slots = ms;
          goes = refl;
          maps = refl;
          known = known;
          same_name = named;
          same_flags = flags;
          fields = h;
          not_renamed = free;
          unchanged = same;
        })

        by_rename :
            (d a : Bool)
            → ltb 0 (count_deleted ms) ≡ d
            → ltb 0 (count_added ok (get_or nsc.classes cid no_class).fields) ≡ a
            → (r : Option (List ℕ))
            → IsSearched osc nsc ok (get_or nsc.classes cid no_class) ok.fields ms r
            → Verdict osc nsc ok
                (if d && a then unless_renamed told ok (whole (d || a)) r else whole (d || a))
        by_rename false false none_d none_a r s =
            mapping false
              (kept-HasNoRename osc nsc ok (get_or nsc.classes cid no_class) ok.fields ms
                (no_deleted ms none_d))
              (inr
                (no_deleted ms none_d, no_added ok (get_or nsc.classes cid no_class).fields none_a))
        by_rename false true e k r s =
            mapping true
              (kept-HasNoRename osc nsc ok (get_or nsc.classes cid no_class) ok.fields ms
                (no_deleted ms e))
              (inl refl)
        by_rename true false e k r s =
            mapping true
              (none_added-HasNoRename osc nsc ok (get_or nsc.classes cid no_class) ok.fields ms
                (no_added ok (get_or nsc.classes cid no_class).fields k))
              (inl refl)
        by_rename true true e k none s = mapping true s (inl refl)
        by_rename true true e k (some name) s =
            refused (poisoned-IsRefused (whole true) _) (maybe_renamed cid (known, named) s)

  diff_class-Judged :
      (mem : Memory) (osc nsc : Schema) (ok : SchemaClass)
      → Judged mem (Verdict osc nsc ok) (diff_class mem told osc nsc ok)
  unfolding diff_class
  diff_class-Judged mem osc nsc ok =
      by_class (find_in_classes nsc.classes ok.name) (find_in_classes-IsClassAt nsc.classes ok.name)
    where
      new_class : ℕ → SchemaClass
      new_class cid = get_or nsc.classes cid no_class

      matched : ℕ → Option MigClass
      matched cid =
          if not (ok.flags == (new_class cid).flags)
          then some (poisoned told (unmatched ok) (storage_changed ok.name))
          else if not (mem (max (length ok.fields) 1 * 4))
          then none
          else some (
              on_mapped told osc ok nsc cid (new_class cid)
                (map_fields osc nsc (new_class cid) ok.fields))

      by_flags :
          (cid : ℕ)
          → IsClassAt nsc.classes ok.name (some cid)
          → Judged mem (Verdict osc nsc ok) (matched cid)
      by_flags cid at = elim (Bool-cases (ok.flags == (new_class cid).flags)) [
        | inr other ↦ rw other (
            refused (poisoned-IsRefused (unmatched ok) _)
              (other_flags cid at (==→ne ok.flags (new_class cid).flags other)))
        | inl same ↦ elim (Bool-cases (mem (max (length ok.fields) 1 * 4))) [
          | inr denied ↦ rw (same, denied) (max (length ok.fields) 1 * 4, denied)
          | inl granted ↦
              rw (same, granted)
                (on_mapped-Verdict osc nsc ok cid (map_fields osc nsc (new_class cid) ok.fields)
                  at.0 at.1 (==→eq ok.flags (new_class cid).flags same)
                  (map_fields-IsMapping osc nsc (new_class cid) ok.fields))
        ]
      ]

      by_class :
          (r : Option ℕ)
          → IsClassAt nsc.classes ok.name r
          → Judged mem (Verdict osc nsc ok) (elim r [
            | none ↦ some (poisoned told (unmatched ok) (vanished ok.name))
            | some cid ↦ matched cid
          ])
      by_class none at = refused (poisoned-IsRefused (unmatched ok) _) (no_namesake at)
      by_class (some cid) at = by_flags cid at

  pub diff_classes-Judged :
      (mem : Memory) (osc nsc : Schema) (oks : List SchemaClass)
      → Judged mem (Verdicts osc nsc oks) (diff_classes mem told osc nsc oks)
  unfolding diff_classes
  diff_classes-Judged mem osc nsc [] = tt
  diff_classes-Judged mem osc nsc (ok ∷ oks) =
      both (diff_class mem told osc nsc ok) (diff_classes mem told osc nsc oks)
        (diff_class-Judged mem osc nsc ok) (diff_classes-Judged mem osc nsc oks)
    where
      both :
          (r : Option MigClass) (rs : Option (List MigClass))
          → Judged mem (Verdict osc nsc ok) r
          → Judged mem (Verdicts osc nsc oks) rs
          → Judged mem (Verdicts osc nsc (ok ∷ oks)) (with_class r rs)
      both none rs h hs = h
      both (some mc) none h hs = hs
      both (some mc) (some mcs) h hs = (h, hs)
