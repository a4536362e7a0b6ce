-- ===== src/Replay/Applied.antt =====
-- A replayed row is created anew (database/src/wal.c).
use writeonce.Common.{
  ℕ, suc, ◌≡◌, refl, ◌∙◌, sym, ap, subst, Bool, Option, none, some, length, ◌==◌, if◌then◌else◌,
  ne→==, ==→eq, Bool-cases, inl, inr,
}
use writeonce.Wire.{Memory, IsCapped, Rbuf}
use writeonce.Engine.{Values, Read, ok, bad_input, stuck}
use writeonce.Engine.Sound.{Sound}
use writeonce.Slots.{Row}
use writeonce.IdHash.Sound.{IsId}
use writeonce.Probing.Store.{entry}
use writeonce.Rows.{Indexing, Shard, RowTable, row_create_raw}
use writeonce.Rows.Lookup.{IsTable, look}
use writeonce.Rows.Insert.{row_create_raw-IsCreated, IsCreated, next_after}
use writeonce.Replay.{RecordResult, corrupt, fill, on_slots, on_new, create_row}
use writeonce.Replay.Created.{
  IsFrame, IsRun, row_failed-IsRun, commit_row-IsRun, fill-IsTable, fill-IsFrame, look-fill,
}

module _ (ix : Indexing) (mem : Memory) (sh : Shard) (t0 : RowTable (Indexing.Index ix)) (id : ℕ)
    (live : IsId id) (new : Option Row → ℕ → Type 0) (capped : IsCapped mem) where
  -- A row is created where there is none, and the rest goes on with its slot.
  pub created :
      (t : RowTable (Indexing.Index ix))
      → IsTable ix t
      → IsFrame ix id t0 t
      → (next : ℕ
          → RowTable (Indexing.Index ix)
          → Option (RecordResult × RowTable (Indexing.Index ix)))
      → ((g : ℕ) (t' : RowTable (Indexing.Index ix))
          → IsTable ix t'
          → IsFrame ix id t0 t'
          → entry t'.hash id ≡ some (suc g)
          → look ix t id ≡ none
          → t'.next_id ≡ next_after sh t.next_id id
          → IsRun ix t0 id new (next g t'))
      → IsRun ix t0 id new (on_new ix mem sh next (row_create_raw ix mem sh t id))
  created t h frame next go =
      let (r, t', run, h', is) = row_create_raw-IsCreated ix mem sh t id live capped h in
      subst (λ o. IsRun ix t0 id new (on_new ix mem sh next o)) (sym run) (by_slot r t' h' is)
    where
      by_slot :
          (r : Option ℕ) (t' : RowTable (Indexing.Index ix))
          → IsTable ix t'
          → IsCreated ix mem sh t id live r t'
          → IsRun ix t0 id new (on_new ix mem sh next (some (r, t')))
      by_slot none t' h' (why, next_same, count, same) =
          (corrupt, t', refl, h', λ k live_k other. same k live_k ∙ frame k live_k other)
      by_slot (some g) t' h' (absent, at, moved, count, looks) =
          go g t' h'
            (λ k live_k other.
              looks k live_k
              ∙ ap
                  (λ (b : Bool).
                    if b then some (record { id = id; slots = t.zeros }) else look ix t k)
                  (ne→== k id other)
              ∙ frame k live_k other)
            at absent moved

  pub create_row-IsRun :
      (t : RowTable (Indexing.Index ix))
      → IsTable ix t
      → IsFrame ix id t0 t
      → (P : Values → Type 0) (r0 : Rbuf) (x : Read (Values × Rbuf)) → Sound P r0 x
      → ((vs : Values) (r : Rbuf)
          → x ≡ ok (vs, r)
          → length r.rest ≡ 0
          → look ix t id ≡ none
          → (m : ℕ) → m ≡ next_after sh t.next_id id
          → new (some (record { id = id; slots = vs })) m)
      → IsRun ix t0 id new (create_row ix mem sh t id x)
  unfolding create_row on_slots
  create_row-IsRun t h frame P r0 x sound is_new =
      created t h frame (λ g t'. on_slots ix mem sh t' id g x)
        (λ g t' h' frame' at absent moved.
          by_read x sound (λ vs r e z m same. is_new vs r e z absent m same) g t' h' frame' at
            moved)
    where
      by_read :
          (x : Read (Values × Rbuf))
          → Sound P r0 x
          → ((vs : Values) (r : Rbuf)
              → x ≡ ok (vs, r)
              → length r.rest ≡ 0
              → (m : ℕ) → m ≡ next_after sh t.next_id id
              → new (some (record { id = id; slots = vs })) m)
          → (g : ℕ) (t' : RowTable (Indexing.Index ix)) → IsTable ix t'
          → IsFrame ix id t0 t'
          → entry t'.hash id ≡ some (suc g)
          → t'.next_id ≡ next_after sh t.next_id id
          → IsRun ix t0 id new (on_slots ix mem sh t' id g x)
      by_read stuck sound is g t' h' frame' at moved = elim sound [ ]
      by_read bad_input sound is g t' h' frame' at moved =
          row_failed-IsRun ix mem sh t0 id live new t' h' frame'
      by_read (ok (vs, r)) sound is g t' h' frame' at moved =
          let t'' = fill ix mem sh t' id g vs in
          let h'' = fill-IsTable ix mem sh t0 id live new t' h' frame' g at vs in
          let frame'' = fill-IsFrame ix mem sh t0 id live new t' h' frame' g at vs in
          elim (Bool-cases (length r.rest == 0)) [
            | inl whole ↦ rw whole (
                commit_row-IsRun ix mem sh t0 id live new t'' h'' frame'' g (
                  subst (λ o. new o t'.next_id)
                    (sym (look-fill ix mem sh t0 id live new t' h' frame' g at vs))
                    (is vs r refl (==→eq (length r.rest) 0 whole) t'.next_id moved)))
            | inr more ↦ rw more (row_failed-IsRun ix mem sh t0 id live new t'' h'' frame'')
          ]
