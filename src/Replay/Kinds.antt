-- ===== src/Replay/Kinds.antt =====
-- One record on the table of its class: `apply_record` and `apply_delta` of database/src/wal.c.
use writeonce.Common.{
  ℕ, zero, suc, ◌*◌, ◌≡◌, refl, ◌∙◌, sym, ap, subst, Bool, true, false, not, ◌&&◌, ◌||◌, Option,
  none, some, List, length, get_or, leb, ◌==◌, if◌then◌else◌, eq→==, ne→==, eq-cases, ==→eq, ◌⊎◌,
  inl, inr, All, arith,
}
use writeonce.Wire.{Memory, IsCapped, Rbuf, rd_u32, rd_u64}
use writeonce.Wire.Integers.{IsByte}
use writeonce.Engine.{
  scalar, Value, Values, done, slot, dec_val, ClassDesc, kinds_at, Read, ok, bad_input, stuck,
}
use writeonce.Engine.Fits.{FitSlots}
use writeonce.Engine.Sound.{Sound, rd_u32-Takes, rd_u64-Takes}
use writeonce.Engine.Decoding.{dec_val-Sound, dec_row-Sound}
use writeonce.Wal.{wal_insert, wal_remove, wal_update, wal_delta}
use writeonce.Fold.{Folded, row, refused, exhausted, wal_fold_row_at}
use writeonce.Fold.Ends.{rd_u64-good, FoldSound, wal_fold_row_at-FoldSound}
use writeonce.Slots.{Row}
use writeonce.IdHash.Sound.{IsId}
use writeonce.Rows.{Indexing, Shard, RowTable, row_ptr, row_create_raw, row_remove}
use writeonce.Rows.Lookup.{IsTable, look}
use writeonce.Rows.Remove.{is_row, IsGiven, row_remove-IsRemoved}
use writeonce.Rows.Insert.{next_after}
use writeonce.Replay.{
  RecordResult, applied, corrupt, set_value, view, fill, commit_row, on_new, create_row, on_old,
  replace_row, on_folded, on_delta_value, apply_delta, row_fields, apply_kind,
}
use writeonce.Replay.Created.{
  IsFrame, IsRun, replace_row-IsRun, commit_row-IsRun, fill-IsTable, fill-IsFrame, look-fill,
}
use writeonce.Replay.Applied.{created, create_row-IsRun}

-- The value of a field of a row, by its place.
abbrev pub nth_value : ℕ → Values → Option Value
nth_value i done = none
nth_value zero (slot v vs) = some v
nth_value (suc i) (slot v vs) = nth_value i vs

abbrev on_place : Bool → Value → Option Value → Option Value
on_place b nv none = none
on_place b nv (some v) = some (if b then nv else v)

-- One field has the new value, and the others are as before.
abbrev pub IsUpdated : ℕ → Value → Values → Values → Type 0
IsUpdated field nv vals vs = (i : ℕ) → nth_value i vs ≡ on_place (i == field) nv (nth_value i vals)

on_place-false : (nv : Value) (o : Option Value) → o ≡ on_place false nv o
on_place-false nv none = refl
on_place-false nv (some v) = refl

suc-suc : (i j : ℕ) → (suc i == suc j) ≡ (i == j)
suc-suc i j = elim (eq-cases i j) [
  | inl same ↦ eq→== (suc i) (suc j) (ap suc same) ∙ sym (eq→== i j same)
  | inr other ↦ ne→== (suc i) (suc j) (λ e. other (omega (arith, e))) ∙ sym (ne→== i j other)
]

set_value-IsUpdated :
    (field : ℕ) (nv : Value) (vals : Values) → IsUpdated field nv vals (set_value field nv vals)
unfolding set_value
set_value-IsUpdated field nv done i = refl
set_value-IsUpdated zero nv (slot v vs) zero = refl
set_value-IsUpdated zero nv (slot v vs) (suc i) =
    on_place-false nv (nth_value i vs)
    ∙ ap (λ b. on_place b nv (nth_value i vs))
        (sym (ne→== (suc i) 0 (λ e. absurd (omega (arith, e)))))
set_value-IsUpdated (suc field) nv (slot v vs) zero =
    ap (λ b. on_place b nv (some v)) (sym (ne→== 0 (suc field) (λ e. absurd (omega (arith, e)))))
set_value-IsUpdated (suc field) nv (slot v vs) (suc i) =
    set_value-IsUpdated field nv vs i
    ∙ ap (λ b. on_place b nv (nth_value i vs)) (sym (suc-suc i field))

module _ (ix : Indexing) (mem : Memory) (sh : Shard) (cls : List ClassDesc) (file : List ℕ)
    (rt : Bool) (t : RowTable (Indexing.Index ix)) (cid id : ℕ) (r : Rbuf) where
  -- The row that the fields behind the header of a record make.
  abbrev pub IsDecoded : Option Row → Type 0
  IsDecoded n =
      (vs : Values) × (r' : Rbuf) × (row_fields ix mem sh cls file rt cid r ≡ ok (vs, r'))
      × (length r'.rest ≡ 0)
      × (n ≡ some (record { id = id; slots = vs }))

  -- The value that is decoded behind the header, the field and the back offset of a delta.
  abbrev pub value_read : Read (Value × Rbuf)
  value_read =
      let r2 = (rd_u64 (rd_u32 r).1).1 in
      dec_val mem cls (suc (length r2.rest)) (get_or (kinds_at cls cid) (rd_u32 r).0 scalar) r2

  -- The row of the log at the back offset of a delta, with the value of the delta in its field.
  abbrev pub IsFolded : Option Row → Type 0
  IsFolded n =
      (vals : Values) × (hops : ℕ) × (nv : Value) × (r3 : Rbuf) × (vs : Values) × (value_read
        ≡ ok (nv, r3))
      × (length r3.rest ≡ 0)
      × (wal_fold_row_at mem (view file) cls (rd_u64 (rd_u32 r).1).0 ≡ row cid id vals hops)
      × IsUpdated (rd_u32 r).0 nv vals vs
      × (n ≡ some (record { id = id; slots = vs }))

  -- The row of the id after a record that was applied: a removal, a delta and an update had a row before
  -- them, an insertion none. A row that is made anew may move the next id.
  abbrev pub IsNew : ℕ → Option Row → ℕ → Type 0
  IsNew kind n m =
      ((kind ≡ wal_remove) × (is_row (look ix t id) ≡ true) × (n ≡ none) × (m ≡ t.next_id))
      ⊎ (((kind ≡ wal_delta)
            × (is_row (look ix t id) ≡ true)
            × IsFolded n
            × (m ≡ next_after sh t.next_id id))
          ⊎ (((kind ≡ wal_update)
                × (is_row (look ix t id) ≡ true)
                × IsDecoded n
                × (m ≡ next_after sh t.next_id id))
              ⊎ ((kind ≡ wal_insert)
                  × (look ix t id ≡ none)
                  × IsDecoded n
                  × (m ≡ next_after sh t.next_id id))))

  module _ (live : IsId id) (h : IsTable ix t) (capped : IsCapped mem) where
    same_rows : IsFrame ix id t t
    same_rows k live_k other = refl

    refusal : (new : Option Row → ℕ → Type 0) → IsRun ix t id new (some (corrupt, t))
    refusal new = (corrupt, t, refl, h, same_rows)

    if-IsRun :
        (new : Option Row → ℕ → Type 0) (b : Bool)
        (x y : Option (RecordResult × RowTable (Indexing.Index ix)))
        → (b ≡ true → IsRun ix t id new x)
        → (b ≡ false → IsRun ix t id new y)
        → IsRun ix t id new (if b then x else y)
    if-IsRun new true x y f g = f refl
    if-IsRun new false x y f g = g refl

    folded-IsRun :
        (nv : Value) (r3 : Rbuf) (x : Folded)
        → value_read ≡ ok (nv, r3)
        → length r3.rest ≡ 0
        → x ≡ wal_fold_row_at mem (view file) cls (rd_u64 (rd_u32 r).1).0
        → FoldSound cls x
        → IsRun ix t id
            (IsNew wal_delta)
            (on_folded ix mem sh cls file rt t cid id (rd_u32 r).0 nv x)
    unfolding on_folded
    folded-IsRun nv r3 (refused e hops) decoded whole at sound = refusal (IsNew wal_delta)
    folded-IsRun nv r3 exhausted decoded whole at sound = elim sound [ ]
    folded-IsRun nv r3 (row c i vals hops) decoded whole at sound =
        if-IsRun (IsNew wal_delta) (c == cid && i == id) _ _
          (λ same.
            replace_row-IsRun ix mem sh t id live (IsNew wal_delta) t h same_rows
              (λ t'.
                on_new ix mem sh
                  (λ g t''.
                    commit_row ix mem sh (fill ix mem sh t'' id g (set_value (rd_u32 r).0 nv vals))
                      id g)
                  (row_create_raw ix mem sh t' id))
              (λ t' h' frame absent there same_next.
                created ix mem sh t id live (IsNew wal_delta) capped t' h' frame
                  (λ g t''.
                    commit_row ix mem sh (fill ix mem sh t'' id g (set_value (rd_u32 r).0 nv vals))
                      id g)
                  (λ g t'' h'' frame'' at_g absent' moved.
                    let vs = set_value (rd_u32 r).0 nv vals in
                    commit_row-IsRun ix mem sh t id live (IsNew wal_delta)
                      (fill ix mem sh t'' id g vs)
                      (fill-IsTable ix mem sh t id live (IsNew wal_delta) t'' h'' frame'' g at_g vs)
                      (fill-IsFrame ix mem sh t id live (IsNew wal_delta) t'' h'' frame'' g at_g vs)
                      g
                      (inr (
                        inl (
                          refl,
                          there,
                          (
                            vals,
                            hops,
                            nv,
                            r3,
                            vs,
                            decoded,
                            whole,
                            sym at ∙ named same,
                            set_value-IsUpdated (rd_u32 r).0 nv vals,
                            look-fill ix mem sh t id live (IsNew wal_delta) t'' h'' frame'' g at_g
                                vs,
                          ),
                          moved ∙ ap (λ n. next_after sh n id) same_next,
                        ))))))
          (λ other. refusal (IsNew wal_delta))
      where
        named : (c == cid && i == id) ≡ true → row c i vals hops ≡ row cid id vals hops
        named same =
            let a : c ≡ cid = ground (arith, same) in
            let b : i ≡ id = ground (arith, same) in
            ap (λ x. row x i vals hops) a ∙ ap (λ y. row cid y vals hops) b

    module _ (bytes : All IsByte r.rest) (file_bytes : All IsByte file) where
      value-IsRun :
          (P : Value → Type 0) (r0 : Rbuf) (x : Read (Value × Rbuf))
          → value_read ≡ x
          → Sound P r0 x
          → IsRun ix t id
              (IsNew wal_delta)
              (on_delta_value ix mem sh cls file rt t cid id (rd_u32 r).0 (rd_u64 (rd_u32 r).1).0 x)
      unfolding on_delta_value
      value-IsRun P r0 stuck decoded sound = elim sound [ ]
      value-IsRun P r0 bad_input decoded sound = refusal (IsNew wal_delta)
      value-IsRun P r0 (ok (nv, r3)) decoded sound =
          if-IsRun (IsNew wal_delta) (not (length r3.rest == 0)) _ _
            (λ e. refusal (IsNew wal_delta))
            (λ e.
              if-IsRun (IsNew wal_delta) (not (mem (length (kinds_at cls cid) * 8))) _ _
                (λ denied. refusal (IsNew wal_delta))
                (λ granted.
                  folded-IsRun nv r3 (wal_fold_row_at mem (view file) cls (rd_u64 (rd_u32 r).1).0)
                    decoded (ground (arith, e)) refl
                    (wal_fold_row_at-FoldSound cls mem (view file) (rd_u64 (rd_u32 r).1).0
                      file_bytes tt)))

      delta-IsRun : IsRun ix t id (IsNew wal_delta) (apply_delta ix mem sh cls file rt t cid id r)
      unfolding apply_delta
      delta-IsRun =
          let r1 = (rd_u32 r).1 in
          let r2 = (rd_u64 r1).1 in
          if-IsRun (IsNew wal_delta) (r2.bad || leb (length (kinds_at cls cid)) (rd_u32 r).0) _ _
            (λ e. refusal (IsNew wal_delta))
            (λ good.
              if-IsRun (IsNew wal_delta) (not rt) _ _ (λ e. refusal (IsNew wal_delta))
                (λ has_rt.
                  let fine : r2.bad ≡ false = ground (arith, good) in
                  let t1 = rd_u32-Takes r bytes (rd_u64-good r1 fine) in
                  let t2 = rd_u64-Takes r1 t1.bytes_left fine in
                  value-IsRun _ r2 _ refl (
                    dec_val-Sound mem cls (suc (length r2.rest))
                      (get_or (kinds_at cls cid) (rd_u32 r).0 scalar) r2 t2.bytes_left
                      (omega arith))))

      -- With an allocator that grants less than 2^29 bytes at once, and a record of any kind, with any bytes behind its header, in a file of bytes, on a resident
      -- table with the invariant and an id that a row can have: the call ends, keeps the invariant
      -- of the table, and changes no other row. If it is applied, the id had a row before a
      -- removal, a delta or an update and none before an insertion; and it has none after a
      -- removal, the row of the log with the value decoded from the record in its field after a delta,
      -- and the row that is decoded from the record after the others. A removal leaves the next id,
      -- and any other record moves it behind the id if this is one of the shard and not below it.
      pub apply_kind-IsRun :
          (kind : ℕ) → IsRun ix t id (IsNew kind) (apply_kind ix mem sh cls file rt t kind cid id r)
      unfolding apply_kind
      apply_kind-IsRun kind =
          if-IsRun (IsNew kind) (kind == wal_remove) _ _ (λ e. removal (==→eq kind wal_remove e))
            (λ e1.
              if-IsRun (IsNew kind) (kind == wal_delta) _ _
                (λ e.
                  subst
                    (λ k. IsRun ix t id (IsNew k) (apply_delta ix mem sh cls file rt t cid id r))
                    (sym (==→eq kind wal_delta e)) delta-IsRun)
                (λ e2.
                  if-IsRun (IsNew kind) (not (kind == wal_insert) && not (kind == wal_update)) _ _
                    (λ e. refusal (IsNew kind))
                    (λ e3.
                      if-IsRun (IsNew kind) (kind == wal_update) _ _
                        (λ e. update_run (==→eq kind wal_update e))
                        (λ e4. insert_run (only_insert e3 e4)))))
        where
          fields :
              Sound (FitSlots cls (kinds_at cls cid)) r (row_fields ix mem sh cls file rt cid r)
          fields =
              dec_row-Sound mem cls (suc (length r.rest)) (kinds_at cls cid) r bytes (omega arith)

          only_insert :
              (not (kind == wal_insert) && not (kind == wal_update)) ≡ false
              → (kind == wal_update) ≡ false
              → kind ≡ wal_insert
          only_insert a b = ground (arith, a, b)

          removal :
              kind ≡ wal_remove
              → IsRun ix t id (IsNew kind) (
                  on_old ix mem sh
                    (λ t'. some (applied, t'))
                    (row_remove ix mem (row_ptr ix t) t id))
          removal is =
              let (good, t', run, h', (there, looks, given)) =
                row_remove-IsRemoved ix mem t id live h (row_ptr ix t) in
              subst
                (λ o. IsRun ix t id (IsNew kind) (on_old ix mem sh (λ t'. some (applied, t')) o))
                (sym run) (by_found good t' h' there looks given)
            where
              frame :
                  (t' : RowTable (Indexing.Index ix))
                  → ((k : ℕ) → IsId k → look ix t' k ≡ (if k == id then none else look ix t k))
                  → IsFrame ix id t t'
              frame t' looks k live_k other =
                  looks k live_k
                  ∙ ap (λ (b : Bool). if b then none else look ix t k) (ne→== k id other)

              by_found :
                  (good : Bool) (t' : RowTable (Indexing.Index ix))
                  → IsTable ix t'
                  → good ≡ is_row (look ix t id)
                  → ((k : ℕ) → IsId k → look ix t' k ≡ (if k == id then none else look ix t k))
                  → IsGiven ix mem t id good t'
                  → IsRun ix t id
                      (IsNew kind)
                      (on_old ix mem sh (λ t'. some (applied, t')) (some (good, t')))
              by_found false t' h' there looks given = (corrupt, t', refl, h', frame t' looks)
              by_found true t' h' there looks (g, at, forgot, bits, listed, count, next_same) = (
                applied,
                t',
                refl,
                h',
                (
                  inl (
                    is,
                    sym there,
                    looks id live
                        ∙ ap (λ (b : Bool). if b then none else look ix t id) (eq→== id id refl),
                    next_same,
                  ),
                  frame t' looks,
                ),
              )

          update_run :
              kind ≡ wal_update
              → IsRun ix t id (IsNew kind) (
                  replace_row ix mem sh t id
                    (λ t'. create_row ix mem sh t' id (row_fields ix mem sh cls file rt cid r)))
          update_run is =
              replace_row-IsRun ix mem sh t id live (IsNew kind) t h same_rows
                (λ t'. create_row ix mem sh t' id (row_fields ix mem sh cls file rt cid r))
                (λ t' h' frame absent there same_next.
                  create_row-IsRun ix mem sh t id live (IsNew kind) capped t' h' frame
                    (FitSlots cls (kinds_at cls cid)) r (row_fields ix mem sh cls file rt cid r)
                    fields
                    (λ vs r' e z gone m moved. inr (
                      inr (
                        inl (
                          is,
                          there,
                          (vs, r', e, z, refl),
                          moved ∙ ap (λ n. next_after sh n id) same_next,
                        )))))

          insert_run :
              kind ≡ wal_insert
              → IsRun ix t id
                  (IsNew kind)
                  (create_row ix mem sh t id (row_fields ix mem sh cls file rt cid r))
          insert_run is =
              create_row-IsRun ix mem sh t id live (IsNew kind) capped t h same_rows
                (FitSlots cls (kinds_at cls cid)) r (row_fields ix mem sh cls file rt cid r) fields
                (λ vs r' e z gone m moved. inr (inr (inr (is, gone, (vs, r', e, z, refl), moved))))
