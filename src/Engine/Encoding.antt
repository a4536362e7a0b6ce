-- ===== src/Engine/Encoding.antt =====
-- The layout of engine values as a function to bytes, and `enc_val` (database/src/wal.c) as a
-- writer of that layout into the growing buffer.
use writeonce.Common.{ℕ, ◌≡◌, false, List, [], ◌∷◌, ◌++◌, length}
use writeonce.Wire.{Memory, Wbuf, wput_u8, wput_u32, wput_u64, le_bytes}
use writeonce.Wire.Appending.{Appends, wput-Appends, Appends-nil, Appends-append}
use writeonce.Engine.{
  Kind, scalar, owned, text, multi, map, float, bytes, kind_byte, Value, nil, word, db_text, db_rec,
  db_multi, db_map, Values, done, slot, Pairs, empty, pair, count, count_pairs, ClassDesc, kinds_at,
  nil_text, enc_val, enc_slots, enc_items, enc_pairs,
}

-- Integers of one, four and eight bytes.
abbrev pub u8 : ℕ → List ℕ
u8 v = le_bytes 1 v

abbrev pub u32 : ℕ → List ℕ
u32 v = le_bytes 4 v

abbrev pub u64 : ℕ → List ℕ
u64 v = le_bytes 8 v

unfoldable mutual
  pub encoding : List ClassDesc → Kind → Value → List ℕ
  encoding cls scalar (word v) = u64 v
  encoding cls float (word v) = u64 v
  encoding cls text nil = u32 nil_text
  encoding cls text (db_text t) = u32 (length t) ++ t
  encoding cls bytes nil = u32 nil_text
  encoding cls bytes (db_text t) = u32 (length t) ++ t
  encoding cls owned nil = u8 0
  encoding cls owned (db_rec cid slots) =
      u8 1 ++ (u32 cid ++ slots_encoding cls (kinds_at cls cid) slots)
  encoding cls multi nil = u8 0
  encoding cls multi (db_multi ek items) =
      u8 1 ++ (u8 (kind_byte ek) ++ (u32 (count items) ++ items_encoding cls ek items))
  encoding cls map nil = u8 0
  encoding cls map (db_map kk vk kv) =
      u8 1
      ++ (u8 (kind_byte kk)
          ++ (u8 (kind_byte vk) ++ (u32 (count_pairs kv) ++ pairs_encoding cls kk vk kv)))
  encoding cls _ _ = []

  pub slots_encoding : List ClassDesc → List Kind → Values → List ℕ
  slots_encoding cls (k ∷ ks) (slot v vs) = encoding cls k v ++ slots_encoding cls ks vs
  slots_encoding cls _ _ = []

  pub items_encoding : List ClassDesc → Kind → Values → List ℕ
  items_encoding cls ek done = []
  items_encoding cls ek (slot v vs) = encoding cls ek v ++ items_encoding cls ek vs

  pub pairs_encoding : List ClassDesc → Kind → Kind → Pairs → List ℕ
  pairs_encoding cls kk vk empty = []
  pairs_encoding cls kk vk (pair k v ps) =
      encoding cls kk k ++ (encoding cls vk v ++ pairs_encoding cls kk vk ps)

module _ (mem : Memory) (w : Wbuf) (v : ℕ) where
  pub wput_u8-Appends : Appends w (wput_u8 mem w v) (u8 v)
  unfolding wput_u8
  wput_u8-Appends = wput-Appends mem w (u8 v)

  pub wput_u32-Appends : Appends w (wput_u32 mem w v) (u32 v)
  unfolding wput_u32
  wput_u32-Appends = wput-Appends mem w (u32 v)

  pub wput_u64-Appends : Appends w (wput_u64 mem w v) (u64 v)
  unfolding wput_u64
  wput_u64-Appends = wput-Appends mem w (u64 v)

-- Two and three writes in a row.
then_put :
    {w w' w'' : Wbuf} {p q : List ℕ} → Appends w w' p → Appends w' w'' q → Appends w w'' (p ++ q)
then_put a b = Appends-append a b

then_put₂ :
    {w w' w'' w''' : Wbuf} {p q r : List ℕ}
    → Appends w w' p
    → Appends w' w'' q
    → Appends w'' w''' r
    → Appends w w''' (p ++ (q ++ r))
then_put₂ a b c = Appends-append a (Appends-append b c)

module _ (mem : Memory) (cls : List ClassDesc) where
  mutual
    unfolding enc_val encoding

    enc_val-step :
        (k : Kind) (v : Value) (w : Wbuf) → Appends w (enc_val mem cls w k v) (encoding cls k v)
    enc_val-step scalar (word v) w = wput_u64-Appends mem w v
    enc_val-step float (word v) w = wput_u64-Appends mem w v
    enc_val-step text nil w = wput_u32-Appends mem w nil_text
    enc_val-step text (db_text t) w =
        then_put (wput_u32-Appends mem w (length t)) (wput-Appends mem _ t)
    enc_val-step bytes nil w = wput_u32-Appends mem w nil_text
    enc_val-step bytes (db_text t) w =
        then_put (wput_u32-Appends mem w (length t)) (wput-Appends mem _ t)
    enc_val-step owned nil w = wput_u8-Appends mem w 0
    enc_val-step owned (db_rec cid slots) w =
        then_put₂ (wput_u8-Appends mem w 1) (wput_u32-Appends mem _ cid)
          (enc_slots-step (kinds_at cls cid) slots _)
    enc_val-step multi nil w = wput_u8-Appends mem w 0
    enc_val-step multi (db_multi ek items) w =
        then_put₂ (wput_u8-Appends mem w 1) (wput_u8-Appends mem _ (kind_byte ek))
          (then_put (wput_u32-Appends mem _ (count items)) (enc_items-step ek items _))
    enc_val-step map nil w = wput_u8-Appends mem w 0
    enc_val-step map (db_map kk vk kv) w =
        then_put₂ (wput_u8-Appends mem w 1) (wput_u8-Appends mem _ (kind_byte kk)) (
          then_put₂ (wput_u8-Appends mem _ (kind_byte vk)) (wput_u32-Appends mem _ (count_pairs kv))
            (enc_pairs-step kk vk kv _))
    enc_val-step _ _ w = Appends-nil w

    enc_slots-step :
        (ks : List Kind) (vs : Values) (w : Wbuf)
        → Appends w (enc_slots mem cls w ks vs) (slots_encoding cls ks vs)
    enc_slots-step (k ∷ ks) (slot v vs) w = then_put (enc_val-step k v w) (enc_slots-step ks vs _)
    enc_slots-step _ _ w = Appends-nil w

    enc_items-step :
        (ek : Kind) (vs : Values) (w : Wbuf)
        → Appends w (enc_items mem cls w ek vs) (items_encoding cls ek vs)
    enc_items-step ek done w = Appends-nil w
    enc_items-step ek (slot v vs) w = then_put (enc_val-step ek v w) (enc_items-step ek vs _)

    enc_pairs-step :
        (kk vk : Kind) (ps : Pairs) (w : Wbuf)
        → Appends w (enc_pairs mem cls w kk vk ps) (pairs_encoding cls kk vk ps)
    enc_pairs-step kk vk empty w = Appends-nil w
    enc_pairs-step kk vk (pair k v ps) w =
        then_put₂ (enc_val-step kk k w) (enc_val-step vk v _) (enc_pairs-step kk vk ps _)

  pub enc_val-Appends :
      (w : Wbuf) (k : Kind) (v : Value) → Appends w (enc_val mem cls w k v) (encoding cls k v)
  enc_val-Appends w k v = enc_val-step k v w

  pub enc_slots-Appends :
      (w : Wbuf) (ks : List Kind) (vs : Values)
      → Appends w (enc_slots mem cls w ks vs) (slots_encoding cls ks vs)
  enc_slots-Appends w ks vs = enc_slots-step ks vs w

  -- If no allocation has failed by its end, `enc_val` has left the buffer as it was with the layout
  -- of the value behind it, for every kind and value.
  pub enc_val-encoding :
      (w : Wbuf) (k : Kind) (v : Value)
      → (enc_val mem cls w k v).oom ≡ false
      → (w.oom ≡ false) × ((enc_val mem cls w k v).bytes ≡ w.bytes ++ encoding cls k v)
  enc_val-encoding w k v good =
      let put = enc_val-Appends w k v in (put.start_good good, put.appended good)
