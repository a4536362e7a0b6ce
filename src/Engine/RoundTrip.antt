-- ===== src/Engine/RoundTrip.antt =====
-- `dec_val` reads back what `enc_val` wrote (both of database/src/wal.c).
use writeonce.Common.{
  ℕ, zero, suc, ◌≤◌, ◌≡◌, refl, true, false, List, ◌++◌, append_assoc, length, length-append, arith,
}
use writeonce.Wire.{Memory, no_bytes, reader}
use writeonce.Wire.Integers.{length-le_bytes}
use writeonce.Engine.{
  Kind, kind_byte, Value, Values, Pairs, count, count_pairs, ClassDesc, kinds_at, enc_val, ok,
  dec_slots, dec_items, dec_pairs, dec_owned, dec_multi, dec_map, dec_kind, dec_val,
}
use writeonce.Engine.Encoding.{
  u8, u32, encoding, slots_encoding, items_encoding, pairs_encoding, enc_val-Appends,
}
use writeonce.Engine.Fits.{
  Fits, fits_scalar, fits_float, no_text, fits_text, no_owned, fits_owned, no_multi, fits_multi,
  no_map, fits_map, fits_bytes, FitSlots, slots_done, slots_more, FitItems, items_done, items_more,
  FitPairs, pairs_done, pairs_more, encoding-pos, count-le, count_pairs-le,
}
use writeonce.Engine.Parts.{
  dec_blob-nil, dec_blob-text, dec_owned-step, dec_multi-step, dec_map-step, dec_word-u64,
  dec_tagged-absent, dec_tagged-present,
}

-- What the parts of an encoding leave for the parts behind the first.
ahead : (p q : List ℕ) {n : ℕ} → length (p ++ q) ≤ n → length p ≤ n
ahead p q h = omega (arith, length-append p q)

later : (p q : List ℕ) {n : ℕ} → length (p ++ q) ≤ n → length q ≤ n
later p q h = omega (arith, length-append p q)

-- Behind a tag byte the rest has one byte less.
inside : (t p q : List ℕ) {n : ℕ} → length (t ++ (p ++ q)) ≤ suc n → length t ≡ 1 → length q ≤ n
inside t p q h e = omega (arith, length-append t (p ++ q), length-append p q)

module _ (mem : Memory) (all : (n : ℕ) → mem n ≡ true) (cls : List ClassDesc) where
  mutual
    unfolding dec_val dec_kind dec_slots dec_items dec_pairs encoding

    reads :
        {k : Kind} {v : Value} (f : Fits cls k v) (fuel : ℕ) (rest : List ℕ)
        → length (encoding cls k v) ≤ fuel
        → dec_val mem cls fuel k (reader (encoding cls k v ++ rest)) ≡ ok (v, reader rest)
    reads f zero rest h = absurd (omega (arith, encoding-pos f))
    reads (fits_scalar {v} b) (suc fuel) rest h = dec_word-u64 rest v b
    reads (fits_float {v} b) (suc fuel) rest h = dec_word-u64 rest v b
    reads no_text (suc fuel) rest h = dec_blob-nil rest mem all
    reads (fits_text {t} b) (suc fuel) rest h = dec_blob-text rest mem all t b
    reads Fits.no_bytes (suc fuel) rest h = dec_blob-nil rest mem all
    reads (fits_bytes {t} b) (suc fuel) rest h = dec_blob-text rest mem all t b
    reads no_owned (suc fuel) rest h =
        dec_tagged-absent rest (dec_owned mem cls (dec_val mem cls fuel))
    reads (fits_owned {cid} {slots} b known fs) (suc fuel) rest h =
        let slot_bytes = slots_encoding cls (kinds_at cls cid) slots in
        let more = u32 cid ++ slot_bytes in
        rw
          (
            append_assoc (u8 1) more rest,
            dec_tagged-present (more ++ rest) (dec_owned mem cls (dec_val mem cls fuel)),
            append_assoc (u32 cid) slot_bytes rest,
          )
          (dec_owned-step rest mem all (dec_val mem cls fuel) (slot_bytes ++ rest) cls cid slots b
            known
            (reads_slots fs fuel rest (inside (u8 1) (u32 cid) slot_bytes h (length-le_bytes 1 1))))
    reads no_multi (suc fuel) rest h = dec_tagged-absent rest (dec_multi mem (dec_val mem cls fuel))
    reads (fits_multi {ek} {items} b fs) (suc fuel) rest h =
        let item_bytes = items_encoding cls ek items in
        let sized = u32 (count items) ++ item_bytes in
        let more = u8 (kind_byte ek) ++ sized in
        rw
          (
            append_assoc (u8 1) more rest,
            dec_tagged-present (more ++ rest) (dec_multi mem (dec_val mem cls fuel)),
            append_assoc (u8 (kind_byte ek)) sized rest,
            append_assoc (u32 (count items)) item_bytes rest,
          )
          (dec_multi-step rest mem all (dec_val mem cls fuel) (item_bytes ++ rest) ek items b
            (omega (arith, length-append item_bytes rest, count-le fs))
            (reads_items fs fuel rest (
              later (u32 (count items)) item_bytes
                (inside (u8 1) (u8 (kind_byte ek)) sized h (length-le_bytes 1 1)))))
    reads no_map (suc fuel) rest h = dec_tagged-absent rest (dec_map mem (dec_val mem cls fuel))
    reads (fits_map {kk} {vk} {kv} b fs) (suc fuel) rest h =
        let pair_bytes = pairs_encoding cls kk vk kv in
        let sized = u32 (count_pairs kv) ++ pair_bytes in
        let valued = u8 (kind_byte vk) ++ sized in
        let more = u8 (kind_byte kk) ++ valued in
        rw
          (
            append_assoc (u8 1) more rest,
            dec_tagged-present (more ++ rest) (dec_map mem (dec_val mem cls fuel)),
            append_assoc (u8 (kind_byte kk)) valued rest,
            append_assoc (u8 (kind_byte vk)) sized rest,
            append_assoc (u32 (count_pairs kv)) pair_bytes rest,
          )
          (dec_map-step rest mem all (dec_val mem cls fuel) (pair_bytes ++ rest) kk vk kv b
            (omega (arith, length-append pair_bytes rest, count_pairs-le fs))
            (reads_pairs fs fuel rest (
              later (u32 (count_pairs kv)) pair_bytes (
                later (u8 (kind_byte vk)) sized
                  (inside (u8 1) (u8 (kind_byte kk)) valued h (length-le_bytes 1 1))))))

    reads_slots :
        {ks : List Kind} {vs : Values} (f : FitSlots cls ks vs) (fuel : ℕ) (rest : List ℕ)
        → length (slots_encoding cls ks vs) ≤ fuel
        → dec_slots (dec_val mem cls fuel) ks (reader (slots_encoding cls ks vs ++ rest))
          ≡ ok (vs, reader rest)
    reads_slots slots_done fuel rest h = refl
    reads_slots (slots_more {k} {ks} {v} {vs} f fs) fuel rest h =
        let here = encoding cls k v in
        let more = slots_encoding cls ks vs in
        rw (
          append_assoc here more rest,
          reads f fuel (more ++ rest) (ahead here more h),
          reads_slots fs fuel rest (later here more h),
        )

    reads_items :
        {ek : Kind} {vs : Values} (f : FitItems cls ek vs) (fuel : ℕ) (rest : List ℕ)
        → length (items_encoding cls ek vs) ≤ fuel
        → dec_items (dec_val mem cls fuel) ek (count vs) (reader (items_encoding cls ek vs ++ rest))
          ≡ ok (vs, reader rest)
    reads_items items_done fuel rest h = refl
    reads_items (items_more {ek} {v} {vs} f fs) fuel rest h =
        let here = encoding cls ek v in
        let more = items_encoding cls ek vs in
        rw (
          append_assoc here more rest,
          reads f fuel (more ++ rest) (ahead here more h),
          reads_items fs fuel rest (later here more h),
        )

    reads_pairs :
        {kk vk : Kind} {ps : Pairs} (f : FitPairs cls kk vk ps) (fuel : ℕ) (rest : List ℕ)
        → length (pairs_encoding cls kk vk ps) ≤ fuel
        → dec_pairs
            (dec_val mem cls fuel)
            kk
            vk
            (count_pairs ps)
            (reader (pairs_encoding cls kk vk ps ++ rest))
          ≡ ok (ps, reader rest)
    reads_pairs pairs_done fuel rest h = refl
    reads_pairs (pairs_more {kk} {vk} {k} {v} {ps} f g fs) fuel rest h =
        let key = encoding cls kk k in
        let value = encoding cls vk v in
        let more = pairs_encoding cls kk vk ps in
        rw (
          append_assoc key (value ++ more) rest,
          append_assoc value more rest,
          reads f fuel (value ++ (more ++ rest)) (ahead key (value ++ more) h),
          reads g fuel (more ++ rest) (ahead value more (later key (value ++ more) h)),
          reads_pairs fs fuel rest (later value more (later key (value ++ more) h)),
        )

  -- A value that the class table allows for its kind, encoded into an empty buffer and with no
  -- allocation failing, is read back by `dec_val` as the same value, for fuel not below the number of
  -- its bytes, and the bytes that follow are left.
  pub dec_val-enc_val :
      (k : Kind) (v : Value) (rest : List ℕ) (fuel : ℕ)
      → Fits cls k v
      → (enc_val mem cls no_bytes k v).oom ≡ false
      → length (enc_val mem cls no_bytes k v).bytes ≤ fuel
      → dec_val mem cls fuel k (reader ((enc_val mem cls no_bytes k v).bytes ++ rest))
        ≡ ok (v, reader rest)
  dec_val-enc_val k v rest fuel f good enough =
      let written = (enc_val-Appends mem cls no_bytes k v).appended good in
      rw written (reads f fuel rest (rw written at enough))

  -- The fields of a row, read in order from their layout.
  pub dec_slots-encoding :
      (ks : List Kind) (vs : Values) (rest : List ℕ) (fuel : ℕ)
      → FitSlots cls ks vs
      → length (slots_encoding cls ks vs) ≤ fuel
      → dec_slots (dec_val mem cls fuel) ks (reader (slots_encoding cls ks vs ++ rest))
        ≡ ok (vs, reader rest)
  dec_slots-encoding ks vs rest fuel f enough = reads_slots f fuel rest enough

  pub dec_val-encoding :
      (k : Kind) (v : Value) (rest : List ℕ) (fuel : ℕ)
      → Fits cls k v
      → length (encoding cls k v) ≤ fuel
      → dec_val mem cls fuel k (reader (encoding cls k v ++ rest)) ≡ ok (v, reader rest)
  dec_val-encoding k v rest fuel f enough = reads f fuel rest enough
