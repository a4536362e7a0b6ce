-- ===== src/Fold/Appended.antt =====
-- The records that `wo_wal_append_insert`, `wo_wal_append_delta` and their like stage
-- (database/src/wal.c), as the payloads of which a row's history consists.
use writeonce.Common.{ℕ, ◌≡◌, true, some, List, ◌++◌, get_or, subst}
use writeonce.Wire.{Memory, Wbuf, no_bytes, wput_u32, wput_u64}
use writeonce.Wire.Appending.{Appends, Appends-append}
use writeonce.Engine.{scalar, Value, Values, ClassDesc, kinds_at, enc_val, enc_slots}
use writeonce.Engine.Encoding.{
  u8, u32, u64, wput_u8-Appends, wput_u32-Appends, wput_u64-Appends, enc_val-Appends,
  enc_slots-Appends,
}
use writeonce.Log.{frame}
use writeonce.Wal.{
  Wal, wal_insert, wal_delta, stage, record_head, append_row, wal_append_insert, wal_append_delta,
}
use writeonce.Wal.Staging.{Staged, pending_head, stage-Staged}
use writeonce.Fold.History.{row_payload, delta_payload}

module _ (mem : Memory) (w : Wal) where
  record_head-Appends :
      (w' : Wbuf) (kind cid id : ℕ) (q : List ℕ)
      → Appends (record_head mem kind cid id) w' q
      → Appends no_bytes w' (u8 kind ++ (u32 cid ++ (u64 id ++ q)))
  unfolding record_head
  record_head-Appends w' kind cid id q more = Appends-append (wput_u8-Appends mem no_bytes kind) (
      Appends-append (wput_u32-Appends mem _ cid) (Appends-append (wput_u64-Appends mem _ id) more))

  -- A buffer filled from the empty one, staged.
  stage_filled :
      (payload : Wbuf) (p : List ℕ)
      → Appends no_bytes payload p
      → (stage mem w payload).0 ≡ true
      → Staged w (stage mem w payload).1 (pending_head w ++ frame p)
  stage_filled payload p put good =
      let (fine, staged) = stage-Staged mem w payload good in
      subst (λ t. Staged w (stage mem w payload).1 (pending_head w ++ frame t)) (put.appended fine)
        staged

  -- A successful `wo_wal_append_insert` of a row has staged the payload of the row: kind, class, id
  -- and the layout of its values.
  pub wal_append_insert-Staged :
      (cls : List ClassDesc) (cid id : ℕ) (slots : Values)
      → (wal_append_insert mem cls w cid id (some slots)).0 ≡ true
      → Staged w
          (wal_append_insert mem cls w cid id (some slots)).1
          (pending_head w ++ frame (row_payload cls wal_insert cid id slots))
  unfolding wal_append_insert append_row
  wal_append_insert-Staged cls cid id slots good =
      stage_filled (enc_slots mem cls (record_head mem wal_insert cid id) (kinds_at cls cid) slots)
        (row_payload cls wal_insert cid id slots)
        (record_head-Appends _ wal_insert cid id _
          (enc_slots-Appends mem cls (record_head mem wal_insert cid id) (kinds_at cls cid) slots))
        good

  -- A successful `wo_wal_append_delta` of a field has staged the payload of the change: class, id,
  -- field, the offset of the row's record before, and the layout of the value.
  pub wal_append_delta-Staged :
      (cls : List ClassDesc) (cid id field back : ℕ) (v : Value)
      → let k = get_or (kinds_at cls cid) field scalar in
        (wal_append_delta mem cls w cid id field back k v).0 ≡ true
        → Staged w
            (wal_append_delta mem cls w cid id field back k v).1
            (pending_head w ++ frame (delta_payload cls cid id field back v))
  unfolding wal_append_delta
  wal_append_delta-Staged cls cid id field back v good =
      let k = get_or (kinds_at cls cid) field scalar in
      let head = wput_u64 mem (wput_u32 mem (record_head mem wal_delta cid id) field) back in
      stage_filled (enc_val mem cls head k v) (delta_payload cls cid id field back v)
        (record_head-Appends _ wal_delta cid id _ (
          Appends-append (wput_u32-Appends mem _ field)
            (Appends-append (wput_u64-Appends mem _ back) (enc_val-Appends mem cls head k v))))
        good
