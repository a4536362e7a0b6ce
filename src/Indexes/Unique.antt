-- ===== src/Indexes/Unique.antt =====
-- The unique check of `idx_add_row` (database/src/table.c).
use writeonce.Common.{
  ℕ, ◌<◌, ◌≡◌, refl, ◌∙◌, sym, ap, Bool, true, false, not, Option, none, some, List, [], ◌∷◌,
  if◌then◌else◌, All, Bool-cases, ◌⊎◌, inl, inr, arith, eq-cases, eq→==, ne→==,
}
use writeonce.Wire.{Memory}
use writeonce.Engine.{Kind, Value}
use writeonce.Slots.{Row}
use writeonce.Probing.Store.{entry}
use writeonce.Rows.{Borrow}
use writeonce.Indexes.{
  DbIndex, bucket_at, idx_bucket, row_hash, clashes, any_clash, clash_in, violates, check_rows,
}
use writeonce.Indexes.Sound.{IsIndexed, ids_at, ids_of, idx_bucket-entry}
use writeonce.Indexes.Listed.{one, occurs}
use writeonce.Indexes.Single.{row_hash-IsKey}

-- One element of the list has it.
abbrev pub Some : (DbIndex → Type 0) → List DbIndex → Type 0
Some P [] = ⊥
Some P (x ∷ xs) = P x ⊎ Some P xs

-- Each read of a row ends.
abbrev pub Ends : Borrow → Type 0
Ends borrow = (id : ℕ) → (o : Option Row) × (borrow id ≡ some o)

module _ (address : Value → ℕ) (kinds : ℕ → Kind) (r : Row) where
  -- In the bucket of the row, an id whose row has the same indexed columns.
  abbrev pub HasClash : Borrow → DbIndex → List ℕ → Type 0
  HasClash borrow ix ids =
      (id : ℕ) × (o : Option Row) × (0 < occurs id ids)
      × (borrow id ≡ some o)
      × (clashes address kinds r ix o ≡ true)

  abbrev pub HasNoClash : Borrow → DbIndex → List ℕ → Type 0
  HasNoClash borrow ix ids =
      (id : ℕ)
      → 0 < occurs id ids
      → (o : Option Row) → borrow id ≡ some o
      → clashes address kinds r ix o ≡ false

  abbrev IsChecked : Borrow → DbIndex → List ℕ → Bool → Type 0
  IsChecked borrow ix ids true = HasClash borrow ix ids
  IsChecked borrow ix ids false = HasNoClash borrow ix ids

  same_row : (o o' : Option Row) → ◌≡◌ {A = Option (Option Row)} (some o) (some o') → o ≡ o'
  same_row o o' e = cc

  any_clash-IsChecked :
      (borrow : Borrow)
      → Ends borrow
      → (ix : DbIndex) (ids : List ℕ)
      → (bad : Bool) × (any_clash address kinds r borrow ix ids ≡ some bad)
        × IsChecked borrow ix ids bad
  unfolding any_clash
  any_clash-IsChecked borrow ends ix [] = (false, refl, λ id h. absurd (omega (arith, h)))
  any_clash-IsChecked borrow ends ix (i ∷ is) =
      let (o, run) = ends i in
      let rest = any_clash-IsChecked borrow ends ix is in
      elim (Bool-cases (clashes address kinds r ix o)) [
        | inl clash ↦
            rw (run, any_clash, clash)
              (true, refl, (i, o, omega (arith, ap one (eq→== i i refl)), run, clash))
        | inr clear ↦ rw (run, any_clash, clear) (further o run clear rest)
      ]
    where
      further :
          (o : Option Row)
          → borrow i ≡ some o
          → clashes address kinds r ix o ≡ false
          → ((bad : Bool) × (any_clash address kinds r borrow ix is ≡ some bad)
              × IsChecked borrow ix is bad)
          → (bad : Bool) × (any_clash address kinds r borrow ix is ≡ some bad)
            × IsChecked borrow ix (i ∷ is) bad
      further o run clear (true, go, (id, o', there, read, clash)) =
          (true, go, (id, o', omega (arith, there), read, clash))
      further o run clear (false, go, none_clash) = (
        false,
        go,
        λ id there o' read. elim (eq-cases i id) [
          | inl same ↦
              ap (λ x. clashes address kinds r ix x)
                (same_row o' o (sym read ∙ ap borrow (sym same) ∙ run))
              ∙ clear
          | inr other ↦ none_clash id (omega (arith, there, ap one (ne→== i id other))) o' read
        ],
      )

  -- An index that is unique has a row with the same columns; and that it has none.
  abbrev pub IsBroken : Borrow → DbIndex → Type 0
  IsBroken borrow ix =
      (ix.unique ≡ true) × HasClash borrow ix (ids_of ix (row_hash address kinds r ix))

  abbrev pub IsRespected : Borrow → DbIndex → Type 0
  IsRespected borrow ix =
      ix.unique ≡ true → HasNoClash borrow ix (ids_of ix (row_hash address kinds r ix))

  abbrev IsViolation : Borrow → DbIndex → Bool → Type 0
  IsViolation borrow ix true = IsBroken borrow ix
  IsViolation borrow ix false = IsRespected borrow ix

  module _ (mem : Memory) (borrow : Borrow) (ends : Ends borrow) where
    violates-IsViolation :
        (ix : DbIndex)
        → IsIndexed ix
        → (bad : Bool) × (violates address kinds r mem borrow ix ≡ some bad)
          × IsViolation borrow ix bad
    unfolding violates
    violates-IsViolation ix sound = elim (Bool-cases ix.unique) [
      | inr plain ↦ (
        false,
        ap (λ (b : Bool). if not b then some false else searched) plain,
        λ unique. absurd (clash (sym plain ∙ unique)),
      )
      | inl unique ↦
          let (bad, run, is) = by_entry (entry ix.table h) in
          (
            bad,
            ap (λ (b : Bool). if not b then some false else searched) unique
                ∙ ap (clash_in address kinds r borrow)
                    (idx_bucket-entry ix mem h (row_hash-IsKey address kinds r ix) sound)
                ∙ run,
            with_unique unique bad is,
          )
    ]
      where
        h : ℕ
        h = row_hash address kinds r ix

        searched : Option Bool
        searched = clash_in address kinds r borrow (idx_bucket mem ix h false)

        clash : false ≡ true → ⊥
        clash e = cc

        by_entry :
            (o : Option ℕ)
            → (bad : Bool) × (clash_in address kinds r borrow (some (o, ix)) ≡ some bad)
              × IsChecked borrow ix (ids_at ix.lists o) bad
        by_entry none = (false, refl, λ id there. absurd (omega (arith, there)))
        by_entry (some p) = any_clash-IsChecked borrow ends ix (bucket_at ix p).ids

        with_unique :
            ix.unique ≡ true
            → (bad : Bool) → IsChecked borrow ix (ids_of ix h) bad
            → IsViolation borrow ix bad
        with_unique unique true c = (unique, c)
        with_unique unique false c = λ u. c

    -- The first loop finds an index that is broken, or all are respected.
    abbrev pub IsVerdict : List DbIndex → Bool → Type 0
    IsVerdict ixs true = Some (IsBroken borrow) ixs
    IsVerdict ixs false = All (IsRespected borrow) ixs

    pub check_rows-IsVerdict :
        (ixs : List DbIndex)
        → All IsIndexed ixs
        → (bad : Bool) × (check_rows address kinds r mem borrow ixs ≡ some bad) × IsVerdict ixs bad
    unfolding check_rows
    check_rows-IsVerdict [] h = (false, refl, tt)
    check_rows-IsVerdict (ix ∷ ixs) (sound, h) =
        let (bad, run, is) = violates-IsViolation ix sound in
        rw (run, check_rows) (by_first bad is (check_rows-IsVerdict ixs h))
      where
        by_first :
            (bad : Bool)
            → IsViolation borrow ix bad
            → ((b : Bool) × (check_rows address kinds r mem borrow ixs ≡ some b) × IsVerdict ixs b)
            → (b : Bool) × ((if bad then some true else check_rows address kinds r mem borrow ixs)
                ≡ some b)
              × IsVerdict (ix ∷ ixs) b
        by_first true broken rest = (true, refl, inl broken)
        by_first false kept (true, go, broken) = (true, go, inr broken)
        by_first false kept (false, go, all) = (false, go, (kept, all))
