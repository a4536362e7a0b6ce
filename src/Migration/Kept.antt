-- ===== src/Migration/Kept.antt =====
-- A store that the same program opens again is not migrated (database/src/wal.c).
use writeonce.Common.{
  ℕ, zero, suc, ◌+◌, ◌*◌, ◌<◌, ◌≡◌, refl, ap, subst, Bool, true, false, not, ◌&&◌, none, some, List,
  [], ◌∷◌, length, get_or, All, max, Bool-cases, if◌then◌else◌, ◌==◌, ltb, eq→==, inl, inr,
}
use writeonce.Wire.{Memory}
use writeonce.Engine.{kind_byte, owned}
use writeonce.Schema.{SchemaField, SchemaClass, Schema}
use writeonce.Migration.{
  Poison, MigClass, no_ref, find_in_classes, no_class, diff_class, diff_classes,
}
use writeonce.Migration.Closure.{
  has_poison, is_dirty, no_entry, embeds, any_dirty, is_tainted, find_tainted, close_class,
  close_round, close_loop,
}
use writeonce.Migration.Diff.{planned, is_identity, mig_class_size, schema_diff}
use writeonce.Migration.Same.{
  AreClassesNamed, IsRegular, kept, all_kept, find_in_classes-own, All-get_or, IsTail, IsTail-all,
  on_mapped-own,
}

any_dirty-kept : (c : ℕ) (ks : List SchemaClass) → any_dirty (all_kept c ks) ≡ false
unfolding any_dirty
any_dirty-kept c [] = refl
any_dirty-kept c (k ∷ ks) = any_dirty-kept (c + 1) ks

is_dirty-kept :
    (c : ℕ) (ks : List SchemaClass) (i : ℕ) → is_dirty (get_or (all_kept c ks) i no_entry) ≡ false
is_dirty-kept c [] i = refl
is_dirty-kept c (k ∷ ks) zero = refl
is_dirty-kept c (k ∷ ks) (suc i) = is_dirty-kept (c + 1) ks i

has_poison-kept :
    (c : ℕ) (ks : List SchemaClass) (i : ℕ) → has_poison (get_or (all_kept c ks) i no_entry) ≡ false
has_poison-kept c [] i = refl
has_poison-kept c (k ∷ ks) zero = refl
has_poison-kept c (k ∷ ks) (suc i) = has_poison-kept (c + 1) ks i

is_identity-kept : (c : ℕ) (ks : List SchemaClass) → is_identity c (all_kept c ks) ≡ true
unfolding is_identity
is_identity-kept c [] = refl
is_identity-kept c (k ∷ ks) = rw (eq→== c c refl) (is_identity-kept (c + 1) ks)

module _ (ks : List SchemaClass) where
  is_tainted-kept : (f : SchemaField) → is_tainted (all_kept 0 ks) f ≡ false
  unfolding is_tainted
  is_tainted-kept f = elim (Bool-cases (embeds f.kind)) [
    | inr e ↦ rw e refl
    | inl e ↦ rw e (
        rw (is_dirty-kept 0 ks f.fclass, any_dirty-kept 0 ks)
          (same (not (f.fclass == no_ref) && ltb f.fclass (length (all_kept 0 ks)))
            (f.kind == kind_byte owned)))
  ]
    where
      same : (b o : Bool) → (if b then false else if o then false else false) ≡ false
      same true o = refl
      same false true = refl
      same false false = refl

  find_tainted-kept : (fs : List SchemaField) → find_tainted (all_kept 0 ks) fs ≡ none
  unfolding find_tainted
  find_tainted-kept [] = refl
  find_tainted-kept (f ∷ fs) = rw (is_tainted-kept f) (find_tainted-kept fs)

  close_round-kept :
      (told : Poison → Bool) (oks : List SchemaClass) (c : ℕ)
      → close_round told oks c (all_kept 0 ks) ≡ (false, all_kept 0 ks)
  unfolding close_round close_class
  close_round-kept told [] c = refl
  close_round-kept told (ok ∷ oks) c =
      rw (has_poison-kept 0 ks c, find_tainted-kept ok.fields, close_round-kept told oks (c + 1))
        refl

module _ (mem : Memory) (told : Poison → Bool) (granted : (n : ℕ) → mem n ≡ true) (sc : Schema)
    (named : AreClassesNamed sc.classes) (regular : All (λ k. IsRegular sc k) sc.classes) where
  diff_class-own :
      (c : ℕ) (k : SchemaClass)
      → c < length sc.classes
      → get_or sc.classes c no_class ≡ k
      → diff_class mem told sc sc k ≡ some (kept c k)
  unfolding diff_class
  diff_class-own c k low same =
      let here : find_in_classes sc.classes k.name ≡ some c =
        subst (λ (l : SchemaClass). find_in_classes sc.classes l.name ≡ some c) same
          (find_in_classes-own sc.classes c named low) in
      let fits : IsRegular sc k =
        subst (IsRegular sc) same (All-get_or (IsRegular sc) sc.classes c no_class regular low) in
      rw (here, diff_class)
        (rw same (
          rw (eq→== k.flags k.flags refl, granted (max (length k.fields) 1 * 4))
            (ap (λ (mc : MigClass). some mc) (on_mapped-own sc k fits told c))))

  diff_classes-own :
      (c : ℕ) (ks : List SchemaClass)
      → IsTail sc.classes no_class c ks
      → diff_classes mem told sc sc ks ≡ some (all_kept c ks)
  unfolding diff_classes
  diff_classes-own c [] h = refl
  diff_classes-own c (k ∷ ks) (low, same, rest) =
      rw (diff_class-own c k low same, diff_classes-own (c + 1) ks rest) refl

  -- With names that differ, references to classes of the schema, and memory: the plan of a schema
  -- against itself is the identity, in which each class keeps its number and each field its place.
  pub schema_diff-kept :
      schema_diff mem told sc sc
      ≡ planned (record { classes = all_kept 0 sc.classes; identity = true })
  unfolding schema_diff close_loop
  schema_diff-kept =
      rw
        (
          granted (max (length sc.classes) 1 * mig_class_size),
          diff_classes-own 0 sc.classes (IsTail-all sc.classes no_class),
          close_round-kept sc.classes told sc.classes 0,
          is_identity-kept 0 sc.classes,
        )
        refl
