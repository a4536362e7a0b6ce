-- ===== src/Replay/Created.antt =====
-- The steps of a replayed record on its table (database/src/wal.c).
use writeonce.Common.{
  ℕ, suc, ◌<◌, ◌≡◌, ◌≢◌, refl, ◌∙◌, sym, ap, subst, Bool, true, false, Option, none, some, length,
  ◌==◌, if◌then◌else◌, eq→==, ne→==, eq-cases, inl, inr, arith,
}
use writeonce.Wire.{Memory}
use writeonce.Engine.{Values}
use writeonce.Slots.{Row, row_at, put_row}
use writeonce.Slots.Use.{row_at-put_row, put_row-IsSlots}
use writeonce.IdHash.Sound.{IsId}
use writeonce.Probing.Store.{entry}
use writeonce.Rows.{
  Indexing, Shard, RowTable, AddError, err_none, err_oom, err_unique, row_ptr, row_raw_commit,
  row_remove, raw_committed,
}
use writeonce.Rows.Sound.{IsPlacedAt, IsStore, look_in, changed-IsStore, apart_used}
use writeonce.Rows.Lookup.{IsTable, look, row_ptr_ends}
use writeonce.Rows.Remove.{is_row, IsGiven, row_remove-IsRemoved}
use writeonce.Replay.{
  RecordResult, applied, corrupt, volatile_class, row_failed, fill, on_commit, commit_row, on_old,
  replace_row,
}

module _ (ix : Indexing) where
  -- All rows but that of `id` are as in `t`.
  abbrev pub IsFrame : ℕ → RowTable (Indexing.Index ix) → RowTable (Indexing.Index ix) → Type 0
  IsFrame id t t' = (k : ℕ) → IsId k → k ≢ id → look ix t' k ≡ look ix t k

  -- What a record has done to its table: with the result 0, `new` tells of the row of the id and of the next id; with
  -- another, only that row may have changed.
  abbrev pub IsResult :
      RowTable (Indexing.Index ix)
      → ℕ
      → (Option Row → ℕ → Type 0)
      → RecordResult
      → RowTable (Indexing.Index ix)
      → Type 0
  IsResult t id new applied t' = new (look ix t' id) t'.next_id × IsFrame id t t'
  IsResult t id new corrupt t' = IsFrame id t t'
  IsResult t id new volatile_class t' = ⊥

  abbrev pub IsRun :
      RowTable (Indexing.Index ix)
      → ℕ
      → (Option Row → ℕ → Type 0)
      → Option (RecordResult × RowTable (Indexing.Index ix))
      → Type 0
  IsRun t id new out =
      (rc : RecordResult) × (t' : RowTable (Indexing.Index ix)) × (out ≡ some (rc, t'))
      × IsTable ix t'
      × IsResult t id new rc t'

  module _ (mem : Memory) (sh : Shard) (t0 : RowTable (Indexing.Index ix)) (id : ℕ) (live : IsId id)
      (new : Option Row → ℕ → Type 0) where
    module _ (t : RowTable (Indexing.Index ix)) (h : IsTable ix t) (frame : IsFrame id t0 t) where
      framed :
          (t' : RowTable (Indexing.Index ix)) (r : Option Row)
          → ((k : ℕ) → IsId k → look ix t' k ≡ (if k == id then r else look ix t k))
          → IsFrame id t0 t'
      framed t' r looks k live_k other =
          looks k live_k
          ∙ ap (λ (b : Bool). if b then r else look ix t k) (ne→== k id other)
          ∙ frame k live_k other

      pub row_failed-IsRun :
          IsRun t0 id new (row_failed ix mem sh (row_remove ix mem (row_ptr ix t) t id))
      row_failed-IsRun =
          let (good, t', run, h', (there, looks, given)) =
            row_remove-IsRemoved ix mem t id live h (row_ptr ix t) in
          (corrupt, t', ap (row_failed ix mem sh) run, h', framed t' none looks)

      -- The row of the id goes, and the rest goes on without it.
      pub replace_row-IsRun :
          (next : RowTable (Indexing.Index ix)
            → Option (RecordResult × RowTable (Indexing.Index ix)))
          → ((t' : RowTable (Indexing.Index ix))
              → IsTable ix t'
              → IsFrame id t0 t'
              → look ix t' id ≡ none
              → is_row (look ix t id) ≡ true
              → t'.next_id ≡ t.next_id
              → IsRun t0 id new (next t'))
          → IsRun t0 id new (replace_row ix mem sh t id next)
      unfolding replace_row
      replace_row-IsRun next go =
          let (good, t', run, h', (there, looks, given)) =
            row_remove-IsRemoved ix mem t id live h (row_ptr ix t) in
          subst (λ o. IsRun t0 id new (on_old ix mem sh next o)) (sym run)
            (by_found good t' h' there looks given)
        where
          by_found :
              (good : Bool) (t' : RowTable (Indexing.Index ix))
              → IsTable ix t'
              → good ≡ is_row (look ix t id)
              → ((k : ℕ) → IsId k → look ix t' k ≡ (if k == id then none else look ix t k))
              → IsGiven ix mem t id good t'
              → IsRun t0 id new (on_old ix mem sh next (some (good, t')))
          by_found false t' h' there looks given = (corrupt, t', refl, h', framed t' none looks)
          by_found true t' h' there looks (g, at, forgot, bits, listed, count, next_same) =
              go t' h' (framed t' none looks)
                (looks id live
                  ∙ ap (λ (b : Bool). if b then none else look ix t id) (eq→== id id refl))
                (sym there) next_same

    -- The row stands, and goes into the indexes.
    pub commit_row-IsRun :
        (t : RowTable (Indexing.Index ix))
        → IsTable ix t
        → IsFrame id t0 t
        → (g : ℕ) → new (look ix t id) t.next_id
        → IsRun t0 id new (commit_row ix mem sh t id g)
    unfolding commit_row row_raw_commit
    commit_row-IsRun t h frame g is_new =
        let (e, x, run, indexed) =
          Indexing.add_ends ix (row_ptr ix t) (λ k. row_ptr_ends ix t k h.store.hashed) t.index
            (row_at t.slots g) h.indexed in
        rw run (by_index e x indexed)
      where
        resumed :
            (x : Indexing.Index ix) → Indexing.IsIndex ix x → IsTable ix (record t { index = x })
        resumed x indexed = record { resident = h.resident; store = h.store; indexed = indexed }

        by_index :
            (e : AddError) (x : Indexing.Index ix)
            → Indexing.IsIndex ix x
            → IsRun t0 id new (on_commit ix mem sh id (raw_committed ix t (some (e, x))))
        by_index err_none x indexed =
            (applied, record t { index = x }, refl, resumed x indexed, (is_new, frame))
        by_index err_oom x indexed =
            row_failed-IsRun (record t { index = x }) (resumed x indexed) frame
        by_index err_unique x indexed =
            row_failed-IsRun (record t { index = x }) (resumed x indexed) frame

    module _ (t : RowTable (Indexing.Index ix)) (h : IsTable ix t) (frame : IsFrame id t0 t) (g : ℕ)
        (at : entry t.hash id ≡ some (suc g)) (vs : Values) where
      filled-IsStore :
          IsStore (fill ix mem sh t id g vs).slots t.hash
          × ((k : ℕ)
              → IsId k
              → look_in (fill ix mem sh t id g vs).slots t.hash k
                ≡ (if k == id then some (record { id = id; slots = vs }) else look ix t k))
      filled-IsStore =
          let r : Row = record { id = id; slots = vs } in
          let p = subst (IsPlacedAt t.slots id) at (h.store.placed id live) in
          let low : g < length t.slots.rows = omega (arith, h.store.slotted.same_size, p.0) in
          let rows = row_at-put_row t.slots g r low in
          let here : row_at (put_row t.slots g r) g ≡ r =
            rows g ∙ ap (λ (b : Bool). if b then r else row_at t.slots g) (eq→== g g refl) in
          let (store, looks) =
            changed-IsStore t.slots (put_row t.slots g r) t.hash t.hash id g (some (suc g)) h.store
              h.store.hashed (put_row-IsSlots t.slots g h.store.slotted r)
              (
                omega arith,
                λ i other. (
                  refl,
                  rows i ∙ ap (λ (b : Bool). if b then r else row_at t.slots i) (ne→== i g other),
                ),
              )
              (λ k live_k. by_id k) (p.0, p.1, ap (λ (x : Row). x.id) here)
              (apart_used t.slots t.hash h.store id g p.2) in
          (
            store,
            λ k live_k.
                looks k live_k ∙ ap (λ (x : Row). if k == id then some x else look ix t k) here,
          )
        where
          by_id : (k : ℕ) → entry t.hash k ≡ (if k == id then some (suc g) else entry t.hash k)
          by_id k = elim (eq-cases k id) [
            | inl same ↦ rw (eq→== k id same) (ap (entry t.hash) same ∙ at)
            | inr other ↦ rw (ne→== k id other) refl
          ]

      pub fill-IsTable : IsTable ix (fill ix mem sh t id g vs)
      fill-IsTable = record { resident = h.resident; store = filled-IsStore.0; indexed = h.indexed }

      pub fill-IsFrame : IsFrame id t0 (fill ix mem sh t id g vs)
      fill-IsFrame = framed t h frame (fill ix mem sh t id g vs) _ filled-IsStore.1

      pub look-fill : look ix (fill ix mem sh t id g vs) id ≡ some (record { id = id; slots = vs })
      look-fill =
          filled-IsStore.1 id live
          ∙ ap (λ (b : Bool). if b then some (record { id = id; slots = vs }) else look ix t id)
              (eq→== id id refl)
