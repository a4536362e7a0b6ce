-- ===== src/Indexes/Whole.antt =====
-- All indexes of a table take a row, and forget it: `idx_add_row` and `idx_remove_row` of
-- database/src/table.c.
use writeonce.Common.{
  ℕ, ◌≡◌, refl, sym, ap, subst, Bool, true, false, some, List, [], ◌∷◌, if◌then◌else◌, All, ◌⊎◌,
  inl, inr,
}
use writeonce.Wire.{Memory, IsCapped}
use writeonce.Engine.{Kind, Value}
use writeonce.Slots.{Row}
use writeonce.Rows.{Borrow, AddError, err_none, err_oom, err_unique}
use writeonce.Indexes.{DbIndex, row_hash, with_index, add_rows, idx_add_row, idx_remove_row}
use writeonce.Indexes.Sound.{IsIndexed, Same}
use writeonce.Indexes.Listed.{one}
use writeonce.Indexes.Single.{
  Changed, row_hash-IsKey, plus_id, minus_id, IsAdded, add_index-IsAdded, drop_id-Changed,
}
use writeonce.Indexes.Unique.{Some, Ends, IsBroken, IsRespected, IsVerdict, check_rows-IsVerdict}

-- Two lists of one length, element by element.
abbrev pub Each : (DbIndex → DbIndex → Type 0) → List DbIndex → List DbIndex → Type 0
Each R [] [] = Unit
Each R [] (y ∷ ys) = ⊥
Each R (x ∷ xs) [] = ⊥
Each R (x ∷ xs) (y ∷ ys) = R x y × Each R xs ys

module _ (address : Value → ℕ) (kinds : ℕ → Kind) (r : Row) where
  -- The bucket of the row has its id more, and one of its ids less.
  abbrev pub Listing : DbIndex → DbIndex → Type 0
  Listing ix ix' = Changed ix ix' (plus_id ix (row_hash address kinds r ix) r.id)

  abbrev pub Dropping : DbIndex → DbIndex → Type 0
  Dropping ix ix' = Changed ix ix' (minus_id ix (row_hash address kinds r ix) r.id)

  Same-Each :
      (ixs : List DbIndex) → All IsIndexed ixs → Each (λ a b. Same a b ⊎ Listing a b) ixs ixs
  Same-Each [] h = tt
  Same-Each (ix ∷ ixs) (sound, h) = (
    inl (record { sound = sound; unique = refl; cols = refl; ids = λ k nz. refl }),
    Same-Each ixs h,
  )

  module _ (mem : Memory) where
    -- All indexes list the row; or memory was refused, and some of them list it.
    abbrev pub IsTaken : List DbIndex → AddError → List DbIndex → Type 0
    IsTaken ixs err_none ixs' = Each Listing ixs ixs'
    IsTaken ixs err_oom ixs' =
        Each (λ a b. Same a b ⊎ Listing a b) ixs ixs' × ((n : ℕ) × (mem n ≡ false))
    IsTaken ixs err_unique ixs' = ⊥

    add_rows-IsTaken :
        IsCapped mem
        → (ixs : List DbIndex) → All IsIndexed ixs
        → (e : AddError) × (ixs' : List DbIndex) × (add_rows address kinds r mem ixs
            ≡ some (e, ixs'))
          × IsTaken ixs e ixs'
    unfolding add_rows
    add_rows-IsTaken capped [] h = (err_none, [], refl, tt)
    add_rows-IsTaken capped (ix ∷ ixs) (sound, h) =
        let (good, ix', run, is) = add_index-IsAdded address kinds r mem ix capped sound in
        rw (run, add_rows) (by_first good ix' is (add_rows-IsTaken capped ixs h))
      where
        by_first :
            (good : Bool) (ix' : DbIndex)
            → IsAdded mem ix (row_hash address kinds r ix) r.id good ix'
            → ((e : AddError) × (ixs' : List DbIndex) × (add_rows address kinds r mem ixs
                  ≡ some (e, ixs'))
                × IsTaken ixs e ixs')
            → (e : AddError) × (ixs' : List DbIndex) × ((if good
                  then with_index address kinds r mem ix' (add_rows address kinds r mem ixs)
                  else some (err_oom, ix' ∷ ixs))
                ≡ some (e, ixs'))
              × IsTaken (ix ∷ ixs) e ixs'
        by_first false ix' (same, why) rest =
            (err_oom, ix' ∷ ixs, refl, ((inl same, Same-Each ixs h), why))
        by_first true ix' listing (err_none, ixs', go, each) =
            (err_none, ix' ∷ ixs', ap (with_index address kinds r mem ix') go, (listing, each))
        by_first true ix' listing (err_oom, ixs', go, (each, why)) = (
          err_oom,
          ix' ∷ ixs',
          ap (with_index address kinds r mem ix') go,
          ((inr listing, each), why),
        )
        by_first true ix' listing (err_unique, ixs', go, never) = elim never [ ]

    -- What `idx_add_row` has done, by its result: a row that breaks a unique index changes nothing.
    abbrev pub IsRowAdded : Borrow → List DbIndex → AddError → List DbIndex → Type 0
    IsRowAdded borrow ixs err_unique ixs' =
        (ixs' ≡ ixs) × Some (IsBroken address kinds r borrow) ixs
    IsRowAdded borrow ixs err_none ixs' =
        All (IsRespected address kinds r borrow) ixs × Each Listing ixs ixs'
    IsRowAdded borrow ixs err_oom ixs' =
        All (IsRespected address kinds r borrow) ixs
        × Each (λ a b. Same a b ⊎ Listing a b) ixs ixs'
        × ((n : ℕ) × (mem n ≡ false))

    checked :
        (borrow : Borrow) (ixs : List DbIndex)
        → All (IsRespected address kinds r borrow) ixs
        → (e : AddError) (ixs' : List DbIndex) → IsTaken ixs e ixs'
        → IsRowAdded borrow ixs e ixs'
    checked borrow ixs kept err_none ixs' each = (kept, each)
    checked borrow ixs kept err_oom ixs' (each, why) = (kept, each, why)
    checked borrow ixs kept err_unique ixs' never = elim never [ ]

    pub idx_add_row-IsRowAdded :
        IsCapped mem
        → (borrow : Borrow) → Ends borrow
        → (ixs : List DbIndex) → All IsIndexed ixs
        → (e : AddError) × (ixs' : List DbIndex) × (idx_add_row address kinds r mem borrow ixs
            ≡ some (e, ixs'))
          × IsRowAdded borrow ixs e ixs'
    unfolding idx_add_row
    idx_add_row-IsRowAdded capped borrow ends ixs h =
        let (bad, run, is) = check_rows-IsVerdict address kinds r mem borrow ends ixs h in
        rw (run, idx_add_row) (by_check bad is)
      where
        by_check :
            (bad : Bool)
            → IsVerdict address kinds r mem borrow ends ixs bad
            → (e : AddError) × (ixs' : List DbIndex) × ((if bad
                  then some (err_unique, ixs)
                  else add_rows address kinds r mem ixs)
                ≡ some (e, ixs'))
              × IsRowAdded borrow ixs e ixs'
        by_check true broken = (err_unique, ixs, refl, (refl, broken))
        by_check false kept =
            let (e, ixs', run, taken) = add_rows-IsTaken capped ixs h in
            (e, ixs', run, checked borrow ixs kept e ixs' taken)

    -- A call of idx_remove_row ends.
    pub idx_remove_row-Dropping :
        (ixs : List DbIndex)
        → All IsIndexed ixs
        → (ixs' : List DbIndex) × (idx_remove_row address kinds r mem ixs ≡ some ixs')
          × Each Dropping ixs ixs'
    unfolding idx_remove_row
    idx_remove_row-Dropping [] h = ([], refl, tt)
    idx_remove_row-Dropping (ix ∷ ixs) (sound, h) =
        let (ix', run, dropping) =
          drop_id-Changed mem ix (row_hash address kinds r ix) (row_hash-IsKey address kinds r ix)
            r.id sound in
        let (ixs', go, each) = idx_remove_row-Dropping ixs h in
        rw (run, idx_remove_row, go) (ix' ∷ ixs', refl, (dropping, each))

    pub Listing-IsIndexed : (ixs ixs' : List DbIndex) → Each Listing ixs ixs' → All IsIndexed ixs'
    Listing-IsIndexed [] [] each = tt
    Listing-IsIndexed [] (y ∷ ys) each = elim each [ ]
    Listing-IsIndexed (x ∷ xs) [] each = elim each [ ]
    Listing-IsIndexed (x ∷ xs) (y ∷ ys) (one, each) = (one.sound, Listing-IsIndexed xs ys each)

    pub Dropping-IsIndexed : (ixs ixs' : List DbIndex) → Each Dropping ixs ixs' → All IsIndexed ixs'
    Dropping-IsIndexed [] [] each = tt
    Dropping-IsIndexed [] (y ∷ ys) each = elim each [ ]
    Dropping-IsIndexed (x ∷ xs) [] each = elim each [ ]
    Dropping-IsIndexed (x ∷ xs) (y ∷ ys) (one, each) = (one.sound, Dropping-IsIndexed xs ys each)

    either-IsIndexed :
        (ixs ixs' : List DbIndex)
        → Each (λ a b. Same a b ⊎ Listing a b) ixs ixs'
        → All IsIndexed ixs'
    either-IsIndexed [] [] each = tt
    either-IsIndexed [] (y ∷ ys) each = elim each [ ]
    either-IsIndexed (x ∷ xs) [] each = elim each [ ]
    either-IsIndexed (x ∷ xs) (y ∷ ys) (inl same, each) = (same.sound, either-IsIndexed xs ys each)
    either-IsIndexed (x ∷ xs) (y ∷ ys) (inr one, each) = (one.sound, either-IsIndexed xs ys each)

    pub IsRowAdded-IsIndexed :
        (borrow : Borrow) (ixs : List DbIndex)
        → All IsIndexed ixs
        → (e : AddError) (ixs' : List DbIndex) → IsRowAdded borrow ixs e ixs'
        → All IsIndexed ixs'
    IsRowAdded-IsIndexed borrow ixs h err_none ixs' (kept, each) = Listing-IsIndexed ixs ixs' each
    IsRowAdded-IsIndexed borrow ixs h err_oom ixs' (kept, each, why) =
        either-IsIndexed ixs ixs' each
    IsRowAdded-IsIndexed borrow ixs h err_unique ixs' (same, broken) =
        subst (λ l. All IsIndexed l) (sym same) h
