-- ===== src/Migration/Ends.antt =====
-- The closure loop ends, and what holds of the plan then (database/src/wal.c).
use writeonce.Common.{
  ℕ, zero, suc, ◌+◌, ◌≤◌, ◌<◌, ◌≡◌, ◌≢◌, refl, ◌∙◌, sym, ap, subst, Bool, true, false, ◌||◌, Option,
  none, some, List, [], ◌∷◌, length, get_or, set, length-set, get_or-set_self, get_or-set_ne,
  Bool-cases, eq-cases, if◌then◌else◌, ◌⊎◌, inl, inr, arith,
}
use writeonce.Schema.{SchemaField, SchemaClass}
use writeonce.Migration.{Poison, embeds_changed, MigClass, no_class, no_field, poisoned}
use writeonce.Migration.Closure.{
  has_poison, no_entry, embeds, is_tainted, find_tainted, close_class, close_round, close_loop,
}
use writeonce.Migration.Verdicts.{IsRefused, HasEmbedded, IsTold, poisoned-IsRefused}

-- The entries that are not refused.
unfoldable pub clean : List MigClass → ℕ
clean [] = 0
clean (mc ∷ mcs) = if has_poison mc then clean mcs else suc (clean mcs)

pub clean-le : (mcs : List MigClass) → clean mcs ≤ length mcs
unfolding clean
clean-le [] = omega arith
clean-le (mc ∷ mcs) = ground (arith, clean-le mcs)

clean-set :
    (plan : List MigClass) (c : ℕ) (mc : MigClass)
    → c < length plan
    → has_poison (get_or plan c no_entry) ≡ false
    → has_poison mc ≡ true
    → suc (clean (set plan c mc)) ≡ clean plan
unfolding clean
clean-set [] c mc h old new = absurd (omega arith)
clean-set (m ∷ plan) zero mc h old new = rw (old, new) refl
clean-set (m ∷ plan) (suc c) mc h old new = elim (Bool-cases (has_poison m)) [
  | inl p ↦ rw p (clean-set plan c mc (omega arith) old new)
  | inr p ↦ rw p (ap suc (clean-set plan c mc (omega arith) old new))
]

-- A refusal of a class that embeds another.
abbrev pub IsCaught : SchemaClass → MigClass → Type 0
IsCaught k mc = IsRefused mc × HasEmbedded k

-- Entries change only into refusals of classes that embed others.
abbrev pub OnlyRefused : List SchemaClass → List MigClass → List MigClass → Type 0
OnlyRefused every plan plan' =
    (length plan' ≡ length plan)
    × ((j : ℕ)
        → (get_or plan' j no_entry ≡ get_or plan j no_entry)
          ⊎ IsCaught (get_or every j no_class) (get_or plan' j no_entry))

OnlyRefused-refl : (every : List SchemaClass) (plan : List MigClass) → OnlyRefused every plan plan
OnlyRefused-refl every plan = (refl, λ j. inl refl)

OnlyRefused-trans :
    (every : List SchemaClass) (p1 p2 p3 : List MigClass)
    → OnlyRefused every p1 p2
    → OnlyRefused every p2 p3
    → OnlyRefused every p1 p3
OnlyRefused-trans every p1 p2 p3 a b = (b.0 ∙ a.0, λ j. join j (b.1 j) (a.1 j))
  where
    join :
        (j : ℕ)
        → (get_or p3 j no_entry ≡ get_or p2 j no_entry)
          ⊎ IsCaught (get_or every j no_class) (get_or p3 j no_entry)
        → (get_or p2 j no_entry ≡ get_or p1 j no_entry)
          ⊎ IsCaught (get_or every j no_class) (get_or p2 j no_entry)
        → (get_or p3 j no_entry ≡ get_or p1 j no_entry)
          ⊎ IsCaught (get_or every j no_class) (get_or p3 j no_entry)
    join j (inr r) k = inr r
    join j (inl e) (inl k) = inl (e ∙ k)
    join j (inl e) (inr r) = inr (subst (IsCaught (get_or every j no_class)) (sym e) r)

-- Every class from `c` on is refused, or embeds no class that is refused or changed.
abbrev pub IsSettled : List MigClass → List SchemaClass → ℕ → Type 0
IsSettled plan [] c = Unit
IsSettled plan (ok ∷ oks) c =
    ((has_poison (get_or plan c no_entry) ≡ true) ⊎ (find_tainted plan ok.fields ≡ none))
    × IsSettled plan oks (c + 1)

is_tainted-embeds :
    (plan : List MigClass) (f : SchemaField) → is_tainted plan f ≡ true → embeds f.kind ≡ true
unfolding is_tainted
is_tainted-embeds plan f e = elim (Bool-cases (embeds f.kind)) [
  | inl there ↦ there
  | inr plain ↦ absurd (clash (rw plain at e))
]
  where
    clash : false ≡ true → ⊥
    clash e = cc

tainted_field :
    (plan : List MigClass) (fs : List SchemaField) (name : List ℕ)
    → find_tainted plan fs ≡ some name
    → (i : ℕ) × (i < length fs) × (embeds (get_or fs i no_field).kind ≡ true)
unfolding find_tainted
tainted_field plan [] name e = absurd (clash e)
  where
    clash : ◌≡◌ {A = Option (List ℕ)} none (some name) → ⊥
    clash e = cc
tainted_field plan (f ∷ fs) name e = elim (Bool-cases (is_tainted plan f)) [
  | inl bad ↦ (0, omega arith, is_tainted-embeds plan f bad)
  | inr good ↦
      let (i, low, there) = tainted_field plan fs name (rw good at e) in
      (suc i, omega (arith, low), there)
]

find_tainted-HasEmbedded :
    (plan : List MigClass) (ok : SchemaClass) (name : List ℕ)
    → find_tainted plan ok.fields ≡ some name
    → HasEmbedded ok
find_tainted-HasEmbedded plan ok name e = tainted_field plan ok.fields name e

module _ (told : Poison → Bool) (all_told : IsTold told) (every : List SchemaClass) where
  -- A step leaves a settled part of the plan alone, or refuses some class more.
  abbrev pub Step : List MigClass → Type 0 → Bool × List MigClass → Type 0
  Step plan S r =
      OnlyRefused every plan r.1
      × (((r.0 ≡ false) × (r.1 ≡ plan) × S) ⊎ ((r.0 ≡ true) × (clean r.1 < clean plan)))

  close_class-Step :
      (ok : SchemaClass) (c : ℕ) (plan : List MigClass)
      → get_or every c no_class ≡ ok
      → c < length plan
      → Step plan
          ((has_poison (get_or plan c no_entry) ≡ true) ⊎ (find_tainted plan ok.fields ≡ none))
          (close_class told ok c plan)
  unfolding close_class
  close_class-Step ok c plan named low = elim (Bool-cases (has_poison (get_or plan c no_entry))) [
    | inl p ↦ rw p (OnlyRefused-refl every plan, inl (refl, refl, inl refl))
    | inr clear ↦ rw clear (by_find (find_tainted plan ok.fields) refl clear)
  ]
    where
      mc : MigClass
      mc = get_or plan c no_entry

      by_find :
          (r : Option (List ℕ))
          → find_tainted plan ok.fields ≡ r
          → has_poison mc ≡ false
          → Step plan ((false ≡ true) ⊎ (r ≡ none)) (elim r [
            | none ↦ (false, plan)
            | some name ↦ (true, set plan c (poisoned told mc (embeds_changed ok.name name)))
          ])
      by_find none e clear = (OnlyRefused-refl every plan, inl (refl, refl, inr refl))
      by_find (some name) e clear =
          let new = poisoned told mc (embeds_changed ok.name name) in
          let gone : IsRefused new = poisoned-IsRefused told all_told mc _ in
          (
            (
              length-set plan c new,
              λ j. entry_at new (gone, find_tainted-HasEmbedded plan ok name e) j (eq-cases c j),
            ),
            inr (refl, omega (arith, clean-set plan c new low clear gone.reason)),
          )
        where
          entry_at :
              (new : MigClass)
              → IsCaught ok new
              → (j : ℕ) → (c ≡ j) ⊎ (c ≢ j)
              → (get_or (set plan c new) j no_entry ≡ get_or plan j no_entry)
                ⊎ IsCaught (get_or every j no_class) (get_or (set plan c new) j no_entry)
          entry_at new gone j (inl same) = inr (
              subst (λ k. IsCaught k (get_or (set plan c new) j no_entry))
                (sym (ap (λ i. get_or every i no_class) (sym same) ∙ named))
                (subst (IsCaught ok)
                  (sym (
                    ap (λ i. get_or (set plan c new) i no_entry) (sym same)
                    ∙ get_or-set_self plan c new no_entry low))
                  gone))
          entry_at new gone j (inr other) = inl (get_or-set_ne plan c j new no_entry other)

  close_round-Step :
      (oks : List SchemaClass) (c : ℕ) (plan : List MigClass)
      → ((i : ℕ) → get_or every (c + i) no_class ≡ get_or oks i no_class)
      → c + length oks ≤ length plan
      → Step plan (IsSettled plan oks c) (close_round told oks c plan)
  unfolding close_round
  close_round-Step [] c plan part room = (OnlyRefused-refl every plan, inl (refl, refl, tt))
  close_round-Step (ok ∷ oks) c plan part room =
      let (only, first) =
        close_class-Step ok c plan (ap (λ i. get_or every i no_class) (omega arith) ∙ part 0)
          (omega (arith, room)) in
      both (close_class told ok c plan) only first (
        close_round-Step oks (c + 1) (close_class told ok c plan).1
          (λ i. ap (λ n. get_or every n no_class) (omega arith) ∙ part (suc i))
          (omega (arith, only.0, room)))
    where
      both :
          (r : Bool × List MigClass)
          → OnlyRefused every plan r.1
          → ((r.0 ≡ false)
              × (r.1 ≡ plan)
              × ((has_poison (get_or plan c no_entry) ≡ true)
                  ⊎ (find_tainted plan ok.fields ≡ none)))
            ⊎ ((r.0 ≡ true) × (clean r.1 < clean plan))
          → Step r.1 (IsSettled r.1 oks (c + 1)) (close_round told oks (c + 1) r.1)
          → Step plan
              (IsSettled plan (ok ∷ oks) c)
              (r.0 || (close_round told oks (c + 1) r.1).0, (close_round told oks (c + 1) r.1).1)
      both (again, plan1) only (inl (e, same, here)) (only', inl (e', same', rest)) = (
        OnlyRefused-trans every plan plan1 (close_round told oks (c + 1) plan1).1 only only',
        inl (rw (e, e') refl, same' ∙ same, (here, subst (λ p. IsSettled p oks (c + 1)) same rest)),
      )
      both (again, plan1) only (inl (e, same, here)) (only', inr (e', fewer)) = (
        OnlyRefused-trans every plan plan1 (close_round told oks (c + 1) plan1).1 only only',
        inr (rw (e, e') refl, omega (arith, fewer, ap clean same)),
      )
      both (again, plan1) only (inr (e, fewer)) (only', inl (e', same', rest)) = (
        OnlyRefused-trans every plan plan1 (close_round told oks (c + 1) plan1).1 only only',
        inr (rw e refl, omega (arith, fewer, ap clean same')),
      )
      both (again, plan1) only (inr (e, fewer)) (only', inr (e', fewer')) = (
        OnlyRefused-trans every plan plan1 (close_round told oks (c + 1) plan1).1 only only',
        inr (rw e refl, omega (arith, fewer, fewer')),
      )

  -- With more fuel than entries that are not refused, the loop ends, in a plan that is settled.
  pub close_loop-IsSettled :
      (fuel : ℕ) (oks : List SchemaClass) (plan : List MigClass)
      → ((i : ℕ) → get_or every i no_class ≡ get_or oks i no_class)
      → length oks ≤ length plan
      → clean plan < fuel
      → (plan' : List MigClass) × (close_loop fuel told oks plan ≡ some plan')
        × OnlyRefused every plan plan'
        × IsSettled plan' oks 0
  unfolding close_loop
  close_loop-IsSettled zero oks plan part room enough = absurd (omega (arith, enough))
  close_loop-IsSettled (suc fuel) oks plan part room enough =
      let (only, step) =
        close_round-Step oks 0 plan (λ i. ap (λ n. get_or every n no_class) (omega arith) ∙ part i)
          (omega (arith, room)) in
      let next = close_round told oks 0 plan in
      elim step [
        | inl (ended, same, settled) ↦
            rw ended (next.1, refl, only, subst (λ p. IsSettled p oks 0) (sym same) settled)
        | inr (again, fewer) ↦
            let (plan', run, only', settled) =
              close_loop-IsSettled fuel oks next.1 part (omega (arith, only.0, room))
                (omega (arith, fewer, enough)) in
            rw again (plan', run, OnlyRefused-trans every plan next.1 plan' only only', settled)
      ]
