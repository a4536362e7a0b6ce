-- ===== src/Indexes/Undo.antt =====
-- What `idx_add_row` did, `idx_remove_row` undoes (database/src/table.c).
use writeonce.Common.{
  ℕ, ◌-◌, ◌≡◌, refl, ◌∙◌, sym, ap, subst, Bool, true, false, Option, some, List, [], ◌∷◌, ◌++◌,
  ◌==◌, if◌then◌else◌, All, inl, inr, arith, eq-cases, eq→==, ne→==,
}
use writeonce.Wire.{Memory, IsCapped}
use writeonce.Engine.{Kind, Value}
use writeonce.Slots.{Row}
use writeonce.Hashing.{idx_hash}
use writeonce.Rows.{Borrow, AddError, err_none, err_oom, err_unique}
use writeonce.Indexes.{DbIndex, row_hash, idx_add_row, idx_remove_row, columns, swap_out}
use writeonce.Indexes.Sound.{IsKey, IsIndexed, ids_of}
use writeonce.Indexes.Listed.{one, occurs, occurs-append, occurs-swap_out}
use writeonce.Indexes.Single.{minus_id}
use writeonce.Indexes.Unique.{Ends}
use writeonce.Indexes.Whole.{
  Each, Listing, Dropping, IsRowAdded, idx_add_row-IsRowAdded, idx_remove_row-Dropping,
  Listing-IsIndexed,
}

module _ (address : Value → ℕ) (kinds : ℕ → Kind) (r : Row) where
  -- The buckets of two lists of indexes have the same ids, each as often.
  abbrev pub IsSameBag : DbIndex → DbIndex → Type 0
  IsSameBag a b = (k : ℕ) → IsKey k → (j : ℕ) → occurs j (ids_of b k) ≡ occurs j (ids_of a k)

  back :
      (a b c : DbIndex) → Listing address kinds r a b → Dropping address kinds r b c → IsSameBag a c
  back a b c p q k nz j =
      let h = row_hash address kinds r a in
      let here : row_hash address kinds r b ≡ h =
        ap (λ cols. idx_hash kinds cols (columns address r.slots)) p.cols in
      ap (occurs j) (q.listed k nz)
      ∙ ap (λ v. occurs j (minus_id b v r.id k)) here
      ∙ ap (λ l. occurs j (if k == h then swap_out r.id l else l)) (p.listed k nz)
      ∙ by_hash (k == h)
    where
      by_hash :
          (t : Bool)
          → occurs j (
              if t
              then swap_out r.id (if t then ids_of a k ++ (r.id ∷ []) else ids_of a k)
              else (if t then ids_of a k ++ (r.id ∷ []) else ids_of a k))
            ≡ occurs j (ids_of a k)
      by_hash false = refl
      by_hash true = occurs-swap_out r.id j (ids_of a k ++ (r.id ∷ [])) ∙ by_id
        where
          by_id :
              (if j == r.id
                then occurs j (ids_of a k ++ (r.id ∷ [])) - 1
                else occurs j (ids_of a k ++ (r.id ∷ [])))
              ≡ occurs j (ids_of a k)
          by_id = elim (eq-cases j r.id) [
            | inl same ↦ rw (eq→== j r.id same) (
                omega (
                  arith,
                  occurs-append j (ids_of a k) (r.id ∷ []),
                  ap one (eq→== r.id j (sym same)),
                ))
            | inr other ↦ rw (ne→== j r.id other) (
                omega (
                  arith,
                  occurs-append j (ids_of a k) (r.id ∷ []),
                  ap one (ne→== r.id j (λ e. other (sym e))),
                ))
          ]

  Each-back :
      (xs ys zs : List DbIndex)
      → Each (Listing address kinds r) xs ys
      → Each (Dropping address kinds r) ys zs
      → Each IsSameBag xs zs
  Each-back [] [] [] p q = tt
  Each-back [] [] (z ∷ zs) p q = elim q [ ]
  Each-back [] (y ∷ ys) zs p q = elim p [ ]
  Each-back (x ∷ xs) [] zs p q = elim p [ ]
  Each-back (x ∷ xs) (y ∷ ys) [] p q = elim q [ ]
  Each-back (x ∷ xs) (y ∷ ys) (z ∷ zs) (p, ps) (q, qs) = (back x y z p q, Each-back xs ys zs ps qs)

  -- Where the row was taken, every index lists it.
  pub idx_add_row-Listing :
      (mem : Memory) (borrow : Borrow)
      → IsCapped mem
      → Ends borrow
      → (ixs ixs1 : List DbIndex) → All IsIndexed ixs
      → idx_add_row address kinds r mem borrow ixs ≡ some (err_none, ixs1)
      → Each (Listing address kinds r) ixs ixs1
  idx_add_row-Listing mem borrow capped ends ixs ixs1 h added =
      let (e, found, run, is) =
        idx_add_row-IsRowAdded address kinds r mem capped borrow ends ixs h in
      taken_all e found (sym added ∙ run) is
    where
      taken_all :
          (e : AddError) (found : List DbIndex)
          → ◌≡◌ {A = Option (AddError × List DbIndex)} (some (err_none, ixs1)) (some (e, found))
          → IsRowAdded address kinds r mem borrow ixs e found
          → Each (Listing address kinds r) ixs ixs1
      taken_all err_none found same (kept, each) =
          subst (Each (Listing address kinds r) ixs) (sym (out same)) each
        where
          out :
              ◌≡◌ {A = Option (AddError × List DbIndex)}
                (some (err_none, ixs1))
                (some (err_none, found))
              → ixs1 ≡ found
          out e = cc
      taken_all err_oom found same is = absurd (clash same)
        where
          clash :
              ◌≡◌ {A = Option (AddError × List DbIndex)}
                (some (err_none, ixs1))
                (some (err_oom, found))
              → ⊥
          clash e = cc
      taken_all err_unique found same is = absurd (clash same)
        where
          clash :
              ◌≡◌ {A = Option (AddError × List DbIndex)}
                (some (err_none, ixs1))
                (some (err_unique, found))
              → ⊥
          clash e = cc

  -- With an allocator that grants less than 2^29 bytes at once: where the reads of rows end and
  -- idx_add_row has taken a row into indexes with the invariant,
  -- idx_remove_row ends and leaves in every bucket of every index the ids that were there before,
  -- each as often.
  pub idx_remove_row-idx_add_row :
      (mem : Memory) (borrow : Borrow)
      → IsCapped mem
      → Ends borrow
      → (ixs ixs1 : List DbIndex) → All IsIndexed ixs
      → idx_add_row address kinds r mem borrow ixs ≡ some (err_none, ixs1)
      → (ixs' : List DbIndex) × (idx_remove_row address kinds r mem ixs1 ≡ some ixs')
        × Each IsSameBag ixs ixs'
  idx_remove_row-idx_add_row mem borrow capped ends ixs ixs1 h added =
      let each = idx_add_row-Listing mem borrow capped ends ixs ixs1 h added in
      let (ixs', go, dropped) =
        idx_remove_row-Dropping address kinds r mem ixs1
          (Listing-IsIndexed address kinds r mem ixs ixs1 each) in
      (ixs', go, Each-back ixs ixs1 ixs' each dropped)
