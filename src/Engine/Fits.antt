-- ===== src/Engine/Fits.antt =====
-- The values that a class table lets a slot of a kind hold, with the bounds of their integer fields
-- (database/src/table.h). A GCREF is never stored.
use writeonce.Common.{
  ℕ, ◌^◌, ◌≤◌, ◌<◌, ◌≡◌, refl, some, List, [], ◌∷◌, ◌++◌, length, length-append, arith,
}
use writeonce.Wire.Integers.{length-le_bytes}
use writeonce.Engine.{
  Kind, scalar, owned, text, multi, map, float, bytes, kind_byte, kind_of, Value, nil, word,
  db_text, db_rec, db_multi, db_map, Values, done, slot, Pairs, empty, pair, count, count_pairs,
  ClassDesc, kinds_at, nil_text,
}
use writeonce.Engine.Encoding.{u8, u32, encoding, items_encoding, pairs_encoding}

mutual
  pub data Fits (cls : List ClassDesc) : Kind → Value → Type 0 where
    fits_scalar : {v : ℕ} → v < 2 ^ 64 → Fits cls scalar (word v)
    fits_float : {v : ℕ} → v < 2 ^ 64 → Fits cls float (word v)
    no_text : Fits cls text nil
    fits_text : {t : List ℕ} → length t < nil_text → Fits cls text (db_text t)
    no_bytes : Fits cls bytes nil
    fits_bytes : {t : List ℕ} → length t < nil_text → Fits cls bytes (db_text t)
    no_owned : Fits cls owned nil
    fits_owned :
        {cid : ℕ} {slots : Values}
        → cid < 2 ^ 32
        → cid < length cls
        → FitSlots cls (kinds_at cls cid) slots
        → Fits cls owned (db_rec cid slots)
    no_multi : Fits cls multi nil
    fits_multi :
        {ek : Kind} {items : Values}
        → count items < 2 ^ 32
        → FitItems cls ek items
        → Fits cls multi (db_multi ek items)
    no_map : Fits cls map nil
    fits_map :
        {kk vk : Kind} {kv : Pairs}
        → count_pairs kv < 2 ^ 32
        → FitPairs cls kk vk kv
        → Fits cls map (db_map kk vk kv)

  pub data FitSlots (cls : List ClassDesc) : List Kind → Values → Type 0 where
    slots_done : FitSlots cls [] done
    slots_more :
        {k : Kind} {ks : List Kind} {v : Value} {vs : Values}
        → Fits cls k v
        → FitSlots cls ks vs
        → FitSlots cls (k ∷ ks) (slot v vs)

  pub data FitItems (cls : List ClassDesc) : Kind → Values → Type 0 where
    items_done : {ek : Kind} → FitItems cls ek done
    items_more :
        {ek : Kind} {v : Value} {vs : Values}
        → Fits cls ek v
        → FitItems cls ek vs
        → FitItems cls ek (slot v vs)

  pub data FitPairs (cls : List ClassDesc) : Kind → Kind → Pairs → Type 0 where
    pairs_done : {kk vk : Kind} → FitPairs cls kk vk empty
    pairs_more :
        {kk vk : Kind} {k v : Value} {ps : Pairs}
        → Fits cls kk k
        → Fits cls vk v
        → FitPairs cls kk vk ps
        → FitPairs cls kk vk (pair k v ps)

pub kind_of-kind_byte : (k : Kind) → kind_of (kind_byte k) ≡ some k
unfolding kind_of kind_byte
kind_of-kind_byte scalar = refl
kind_of-kind_byte _ = refl

pub kind_byte-lt : (k : Kind) → kind_byte k < 2 ^ 8
unfolding kind_byte
kind_byte-lt scalar = omega arith
kind_byte-lt _ = omega arith

-- Every value that fits takes a byte at least: `dec_val` refuses counts above the bytes left.
pub encoding-pos :
    {cls : List ClassDesc} {k : Kind} {v : Value} → Fits cls k v → 0 < length (encoding cls k v)
unfolding encoding
encoding-pos (fits_scalar h) = rw length-le_bytes (omega arith)
encoding-pos (fits_float h) = rw length-le_bytes (omega arith)
encoding-pos no_text = rw length-le_bytes (omega arith)
encoding-pos (fits_text {t} h) =
    omega (arith, length-append (u32 (length t)) t, length-le_bytes 4 (length t))
encoding-pos no_bytes = rw length-le_bytes (omega arith)
encoding-pos (fits_bytes {t} h) =
    omega (arith, length-append (u32 (length t)) t, length-le_bytes 4 (length t))
encoding-pos no_owned = rw length-le_bytes (omega arith)
encoding-pos (fits_owned a b c) = rw (length-append (u8 1), length-le_bytes) (omega arith)
encoding-pos no_multi = rw length-le_bytes (omega arith)
encoding-pos (fits_multi a b) = rw (length-append (u8 1), length-le_bytes) (omega arith)
encoding-pos no_map = rw length-le_bytes (omega arith)
encoding-pos (fits_map a b) = rw (length-append (u8 1), length-le_bytes) (omega arith)

pub count-le :
    {cls : List ClassDesc} {ek : Kind} {vs : Values}
    → FitItems cls ek vs
    → count vs ≤ length (items_encoding cls ek vs)
unfolding encoding
count-le items_done = omega arith
count-le {cls} (items_more {ek} {v} {vs} f fs) = omega (
  arith,
  length-append (encoding cls ek v) (items_encoding cls ek vs),
  encoding-pos f,
  count-le fs,
)

pub count_pairs-le :
    {cls : List ClassDesc} {kk vk : Kind} {ps : Pairs}
    → FitPairs cls kk vk ps
    → count_pairs ps ≤ length (pairs_encoding cls kk vk ps)
unfolding encoding
count_pairs-le pairs_done = omega arith
count_pairs-le {cls} (pairs_more {kk} {vk} {k} {v} {ps} f g fs) = omega (
  arith,
  length-append (encoding cls kk k) (encoding cls vk v ++ pairs_encoding cls kk vk ps),
  length-append (encoding cls vk v) (pairs_encoding cls kk vk ps),
  encoding-pos f,
  count_pairs-le fs,
)
