-- ===== src/Engine/Parts.antt =====
-- Each part of `dec_val` (database/src/wal.c) on the bytes that `enc_val` writes for it.
use writeonce.Common.{
  ℕ, ◌+◌, ◌*◌, ◌^◌, ◌≤◌, ◌<◌, ◌≡◌, refl, true, false, List, ◌++◌, append_assoc, length,
  length-append, take-length_append, drop-length_append, leb, le→ltb, ne→==, arith,
}
use writeonce.Wire.{Memory, reader}
use writeonce.Wire.Reading.{rd_u8-append, rd_u32-append, rd_u64-append}
use writeonce.Engine.{
  Kind, kind_byte, nil, word, db_text, db_rec, db_multi, db_map, Values, Pairs, count, count_pairs,
  ClassDesc, kinds_at, nil_text, ok, Decoder, dec_slots, dec_items, dec_pairs, dec_word, dec_blob,
  dec_tagged, dec_owned, dec_multi, dec_map,
}
use writeonce.Engine.Encoding.{u8, u32, u64}
use writeonce.Engine.Fits.{kind_of-kind_byte, kind_byte-lt}

module _ (rest : List ℕ) where
  pub dec_word-u64 :
      (v : ℕ) → v < 2 ^ 64 → dec_word (reader (u64 v ++ rest)) ≡ ok (word v, reader rest)
  unfolding dec_word
  dec_word-u64 v h = rw (rd_u64-append v rest h)

  pub dec_tagged-absent :
      (body : _) → dec_tagged body (reader (u8 0 ++ rest)) ≡ ok (nil, reader rest)
  unfolding dec_tagged
  dec_tagged-absent body = rw (rd_u8-append 0 rest (omega arith))

  pub dec_tagged-present : (body : _) → dec_tagged body (reader (u8 1 ++ rest)) ≡ body (reader rest)
  unfolding dec_tagged
  dec_tagged-present body = rw (rd_u8-append 1 rest (omega arith))

  module _ (mem : Memory) (all : (n : ℕ) → mem n ≡ true) where
    pub dec_blob-nil : dec_blob mem (reader (u32 nil_text ++ rest)) ≡ ok (nil, reader rest)
    unfolding dec_blob
    dec_blob-nil = rw (rd_u32-append nil_text rest (omega arith))

    pub dec_blob-text :
        (t : List ℕ)
        → length t < nil_text
        → dec_blob mem (reader ((u32 (length t) ++ t) ++ rest)) ≡ ok (db_text t, reader rest)
    unfolding dec_blob
    dec_blob-text t h =
        let short : length t ≤ length (t ++ rest) = omega (arith, length-append t rest) in
        rw (
          append_assoc (u32 (length t)) t rest,
          rd_u32-append (length t) (t ++ rest) (omega arith),
          ne→== (length t) nil_text (omega arith),
          le→ltb (length (t ++ rest)) (length t) short,
          all (4 + length t),
          take-length_append (length t) t rest refl,
          drop-length_append (length t) t rest refl,
        )

    module _ (dec : Decoder) (body : List ℕ) where
      pub dec_owned-step :
          (cls : List ClassDesc) (cid : ℕ) (slots : Values)
          → cid < 2 ^ 32
          → cid < length cls
          → dec_slots dec (kinds_at cls cid) (reader body) ≡ ok (slots, reader rest)
          → dec_owned mem cls dec (reader (u32 cid ++ body)) ≡ ok (db_rec cid slots, reader rest)
      unfolding dec_owned
      dec_owned-step cls cid slots fits known e =
          let inside : leb (length cls) cid ≡ false = ground arith in
          rw (rd_u32-append cid body fits, inside, all (8 + length (kinds_at cls cid) * 8), e)

      pub dec_multi-step :
          (ek : Kind) (items : Values)
          → count items < 2 ^ 32
          → count items ≤ length body
          → dec_items dec ek (count items) (reader body) ≡ ok (items, reader rest)
          → dec_multi mem dec (reader (u8 (kind_byte ek) ++ (u32 (count items) ++ body)))
            ≡ ok (db_multi ek items, reader rest)
      unfolding dec_multi
      dec_multi-step ek items fits room e = rw (
        rd_u8-append (kind_byte ek) (u32 (count items) ++ body) (kind_byte-lt ek),
        rd_u32-append (count items) body fits,
        kind_of-kind_byte ek,
        le→ltb (length body) (count items) room,
        all (8 + count items * 8),
        e,
      )

      pub dec_map-step :
          (kk vk : Kind) (kv : Pairs)
          → count_pairs kv < 2 ^ 32
          → count_pairs kv ≤ length body
          → dec_pairs dec kk vk (count_pairs kv) (reader body) ≡ ok (kv, reader rest)
          → dec_map mem dec
              (reader (u8 (kind_byte kk) ++ (u8 (kind_byte vk) ++ (u32 (count_pairs kv) ++ body))))
            ≡ ok (db_map kk vk kv, reader rest)
      unfolding dec_map
      dec_map-step kk vk kv fits room e = rw (
        rd_u8-append (kind_byte kk) (u8 (kind_byte vk) ++ (u32 (count_pairs kv) ++ body))
            (kind_byte-lt kk),
        rd_u8-append (kind_byte vk) (u32 (count_pairs kv) ++ body) (kind_byte-lt vk),
        rd_u32-append (count_pairs kv) body fits,
        kind_of-kind_byte kk,
        kind_of-kind_byte vk,
        le→ltb (length body) (count_pairs kv) room,
        all (8 + count_pairs kv * 16),
        e,
      )
