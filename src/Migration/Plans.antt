-- ===== src/Migration/Plans.antt =====
-- What a migration plan promises (`wo_schema_diff` of database/src/wal.c).
use writeonce.Common.{
  ℕ, suc, ◌+◌, ◌*◌, ◌≤◌, ◌≡◌, refl, sym, ap, subst, Bool, true, false, Option, none, some, List, [],
  ◌∷◌, length, get_or, All, max, Bool-cases, ◌==◌, ltb, ltb→le, ==→eq, ◌⊎◌, inl, inr, arith,
}
use writeonce.Wire.{Memory}
use writeonce.Schema.{SchemaField, SchemaClass, Schema}
use writeonce.Migration.{Poison, MigClass, no_ref, diff_classes}
use writeonce.Migration.Closure.{
  has_poison, is_dirty, no_entry, embeds, is_tainted, find_tainted, close_loop,
}
use writeonce.Migration.Diff.{
  Diffed, no_memory, endless, planned, keeps_cid, is_identity, plan_of, mig_class_size, schema_diff,
}
use writeonce.Migration.Verdicts.{
  Verdict, refused, embedding, Verdicts, Judged, IsTold, diff_classes-Judged,
}
use writeonce.Migration.Ends.{OnlyRefused, IsSettled, clean-le, close_loop-IsSettled}

-- A field whose stored values have the shape that the new program reads: it embeds no class, or one
-- that is neither refused nor changed.
abbrev pub IsIntact : List MigClass → SchemaField → Type 0
IsIntact plan f =
    (embeds f.kind ≡ false)
    ⊎ ((f.fclass ≡ no_ref)
        ⊎ ((length plan ≤ f.fclass)
            ⊎ ((has_poison (get_or plan f.fclass no_entry) ≡ false)
                × ((get_or plan f.fclass no_entry).changed ≡ false))))

is_dirty-false :
    (mc : MigClass) → is_dirty mc ≡ false → (has_poison mc ≡ false) × (mc.changed ≡ false)
is_dirty-false mc e = elim (Bool-cases (has_poison mc)) [
  | inl p ↦ absurd (clash (rw p at e))
  | inr p ↦ (p, rw p at e)
]
  where
    clash : true ≡ false → ⊥
    clash e = cc

is_tainted-IsIntact :
    (plan : List MigClass) (f : SchemaField) → is_tainted plan f ≡ false → IsIntact plan f
unfolding is_tainted
is_tainted-IsIntact plan f e = elim (Bool-cases (embeds f.kind)) [
  | inr plain ↦ inl plain
  | inl there ↦ elim (Bool-cases (f.fclass == no_ref)) [
    | inl none_given ↦ inr (inl (==→eq f.fclass no_ref none_given))
    | inr given ↦ elim (Bool-cases (ltb f.fclass (length plan))) [
      | inr out ↦ inr (inr (inl (ltb→le f.fclass (length plan) out)))
      | inl inside ↦ inr (
          inr
            (inr (is_dirty-false (get_or plan f.fclass no_entry) (rw (there, given, inside) at e))))
    ]
  ]
]

find_tainted-IsIntact :
    (plan : List MigClass) (fs : List SchemaField)
    → find_tainted plan fs ≡ none
    → All (λ f. IsIntact plan f) fs
unfolding find_tainted
find_tainted-IsIntact plan [] e = tt
find_tainted-IsIntact plan (f ∷ fs) e = elim (Bool-cases (is_tainted plan f)) [
  | inl bad ↦ absurd (clash (rw bad at e))
  | inr good ↦ (is_tainted-IsIntact plan f good, find_tainted-IsIntact plan fs (rw good at e))
]
  where
    clash : some f.name ≡ none → ⊥
    clash e = cc

-- The classes from `c` on are refused, or all their fields are intact.
abbrev pub AreIntact : List MigClass → List SchemaClass → ℕ → Type 0
AreIntact plan [] c = Unit
AreIntact plan (ok ∷ oks) c =
    ((has_poison (get_or plan c no_entry) ≡ true) ⊎ All (λ f. IsIntact plan f) ok.fields)
    × AreIntact plan oks (c + 1)

IsSettled-AreIntact :
    (plan : List MigClass) (oks : List SchemaClass) (c : ℕ)
    → IsSettled plan oks c
    → AreIntact plan oks c
IsSettled-AreIntact plan [] c h = tt
IsSettled-AreIntact plan (ok ∷ oks) c (inl p, h) = (inl p, IsSettled-AreIntact plan oks (c + 1) h)
IsSettled-AreIntact plan (ok ∷ oks) c (inr e, h) =
    (inr (find_tainted-IsIntact plan ok.fields e), IsSettled-AreIntact plan oks (c + 1) h)

-- Each class keeps its number and its fields.
abbrev pub AllStay : ℕ → List MigClass → Type 0
AllStay c [] = Unit
AllStay c (mc ∷ mcs) =
    ((has_poison mc ≡ false) × (mc.new_cid ≡ some c) × (mc.changed ≡ false)) × AllStay (c + 1) mcs

keeps_cid-some : (c : ℕ) (o : Option ℕ) → keeps_cid c o ≡ true → o ≡ some c
keeps_cid-some c none e = absurd (clash e)
  where
    clash : false ≡ true → ⊥
    clash e = cc
keeps_cid-some c (some d) e = ap (λ (i : ℕ). some i) (==→eq d c e)

is_identity-AllStay : (c : ℕ) (mcs : List MigClass) → (is_identity c mcs ≡ false) ⊎ AllStay c mcs
unfolding is_identity
is_identity-AllStay c [] = inr tt
is_identity-AllStay c (mc ∷ mcs) = elim (Bool-cases (has_poison mc)) [
  | inl p ↦ rw p (inl refl)
  | inr clear ↦ elim (Bool-cases (keeps_cid c mc.new_cid)) [
    | inr moves ↦ rw (clear, moves) (inl refl)
    | inl stays ↦ elim (Bool-cases mc.changed) [
      | inl changes ↦ rw (clear, stays, changes) (inl refl)
      | inr same ↦
          rw (clear, stays, same)
            (elim (is_identity-AllStay (c + 1) mcs) [
              | inl e ↦ inl e
              | inr h ↦ inr ((refl, keeps_cid-some c mc.new_cid stays, refl), h)
            ])
    ]
  ]
]

Verdicts-OnlyRefused :
    (osc nsc : Schema) (oks : List SchemaClass) (plan plan' : List MigClass)
    → OnlyRefused oks plan plan'
    → Verdicts osc nsc oks plan
    → Verdicts osc nsc oks plan'
Verdicts-OnlyRefused osc nsc [] [] [] only h = tt
Verdicts-OnlyRefused osc nsc [] [] (m ∷ plan') only h = absurd (omega (arith, only.0))
Verdicts-OnlyRefused osc nsc [] (m ∷ plan) plan' only h = elim h [ ]
Verdicts-OnlyRefused osc nsc (ok ∷ oks) [] plan' only h = elim h [ ]
Verdicts-OnlyRefused osc nsc (ok ∷ oks) (m ∷ plan) [] only h = absurd (omega (arith, only.0))
Verdicts-OnlyRefused osc nsc (ok ∷ oks) (m ∷ plan) (m' ∷ plan') only h = (
  elim (only.1 0) [
    | inl same ↦ subst (Verdict osc nsc ok) (sym same) h.0
    | inr (gone, there) ↦ refused gone (embedding there)
  ],
  Verdicts-OnlyRefused osc nsc oks plan plan' (omega (arith, only.0), λ j. only.1 (suc j)) h.1,
)

length-Verdicts :
    (osc nsc : Schema) (oks : List SchemaClass) (plan : List MigClass)
    → Verdicts osc nsc oks plan
    → length oks ≡ length plan
length-Verdicts osc nsc [] [] h = refl
length-Verdicts osc nsc [] (m ∷ plan) h = elim h [ ]
length-Verdicts osc nsc (ok ∷ oks) [] h = elim h [ ]
length-Verdicts osc nsc (ok ∷ oks) (m ∷ plan) h = ap suc (length-Verdicts osc nsc oks plan h.1)

-- What the comparison of two schemas promises.
abbrev pub IsPromised : Memory → Schema → Schema → Diffed → Type 0
IsPromised mem osc nsc no_memory = (n : ℕ) × (mem n ≡ false)
IsPromised mem osc nsc endless = ⊥
IsPromised mem osc nsc (planned p) =
    Verdicts osc nsc osc.classes p.classes
    × AreIntact p.classes osc.classes 0
    × ((p.identity ≡ false) ⊎ AllStay 0 p.classes)

module _ (mem : Memory) (told : Poison → Bool) (osc nsc : Schema) where
  plan_of-IsPromised :
      IsTold told
      → (mcs : List MigClass) → Verdicts osc nsc osc.classes mcs
      → IsPromised mem osc nsc
          (plan_of (close_loop (suc (length osc.classes)) told osc.classes mcs))
  plan_of-IsPromised all_told mcs h =
      let size = length-Verdicts osc nsc osc.classes mcs h in
      let (plan, run, only, settled) =
        close_loop-IsSettled told all_told osc.classes (suc (length osc.classes)) osc.classes mcs
          (λ i. refl) (omega (arith, size)) (omega (arith, size, clean-le mcs)) in
      rw run (
        Verdicts-OnlyRefused osc nsc osc.classes mcs plan only h,
        IsSettled-AreIntact plan osc.classes 0 settled,
        is_identity-AllStay 0 plan,
      )

  -- Where memory is there for the texts of refusals, wo_schema_diff ends, and fails only if other
  -- memory is refused. In its plan each old class is refused with a message, or it goes to a class of
  -- the same name and flags, each field to one of the same name and shape or to none where no field
  -- has its name and no added field its shape, and it is unchanged only with the same fields on both
  -- sides; what it embeds is neither refused nor changed. A class is refused only where no new class
  -- has its name, or the one of its name has other flags, or one of its fields has another shape than
  -- the new one of its name, or has none of its name and the shape of an added one, or is of a kind
  -- that may embed a class. A plan that is an identity leaves every class where it was.
  pub schema_diff-IsPromised : IsTold told → IsPromised mem osc nsc (schema_diff mem told osc nsc)
  unfolding schema_diff
  schema_diff-IsPromised all_told =
      elim (Bool-cases (mem (max (length osc.classes) 1 * mig_class_size))) [
        | inr denied ↦ rw denied (max (length osc.classes) 1 * mig_class_size, denied)
        | inl granted ↦ rw granted (
            by_classes (diff_classes mem told osc nsc osc.classes)
              (diff_classes-Judged told all_told mem osc nsc osc.classes))
      ]
    where
      by_classes :
          (r : Option (List MigClass))
          → Judged mem (Verdicts osc nsc osc.classes) r
          → IsPromised mem osc nsc (elim r [
            | none ↦ no_memory
            | some mcs ↦ plan_of (close_loop (suc (length osc.classes)) told osc.classes mcs)
          ])
      by_classes none h = h
      by_classes (some mcs) h = plan_of-IsPromised all_told mcs h
