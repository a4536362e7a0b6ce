-- ===== src/Engine/Decoding.antt =====
-- `dec_val` (database/src/wal.c) on any bytes, well formed or not.
use writeonce.Common.{
  ℕ, zero, suc, ◌+◌, ◌*◌, ◌^◌, ◌≤◌, ◌<◌, ◌≡◌, refl, ap, ◌||◌, Option, none, some, List, [], ◌∷◌,
  length, take, length-take, length-drop, All, ltb, leb, ◌==◌, ltb→le, ==→ne, arith,
}
use writeonce.Wire.{Memory, Rbuf, rd_u8, rd_u32, rd_u64}
use writeonce.Wire.Integers.{IsByte}
use writeonce.Engine.{
  Kind, scalar, owned, gcref, text, multi, map, float, bytes, kind_of, Value, nil, Values, Pairs,
  count, count_pairs, ClassDesc, kinds_at, nil_text, Read, ok, bad_input, stuck, Decoder, dec_slots,
  dec_items, dec_pairs, dec_word, dec_blob, dec_tagged, dec_owned, dec_multi_items, dec_multi,
  dec_map_pairs, dec_map, dec_kind, dec_val,
}
use writeonce.Engine.Fits.{
  Fits, fits_scalar, fits_float, no_text, fits_text, no_owned, fits_owned, no_multi, fits_multi,
  no_map, fits_map, fits_bytes, FitSlots, slots_done, slots_more, FitItems, items_done, items_more,
  FitPairs, pairs_done, pairs_more,
}
use writeonce.Engine.Sound.{
  All-drop, Sound, Sound-bind, Sound-weaken, Sound-if, rd_u8-Takes, rd_u32-Takes, rd_u64-Takes,
  rd_u8-good, rd_u32-good,
}

module _ (mem : Memory) (cls : List ClassDesc) where
  -- What a decoder of nested values keeps, below a bound on the bytes that it may meet.
  abbrev Nested : ℕ → Decoder → Type 0
  Nested fuel dec =
      (k : Kind) (r : Rbuf)
      → All IsByte r.rest
      → length r.rest < fuel
      → Sound (Fits cls k) r (dec k r)

  dec_word-Sound :
      (r : Rbuf)
      → All IsByte r.rest
      → Sound (λ v. Fits cls scalar v × Fits cls float v) r (dec_word r)
  unfolding dec_word
  dec_word-Sound r h =
      Sound-if _ r (rd_u64 r).1.bad _ _ (λ _. tt)
        λ good.
          let t = rd_u64-Takes r h good in
          let fits : (rd_u64 r).0 < 2 ^ 64 = t.bounded in
          ((fits_scalar fits, fits_float fits), omega (arith, t.taken), t.bytes_left)

  dec_blob-Sound :
      (r : Rbuf)
      → All IsByte r.rest
      → Sound (λ v. Fits cls text v × Fits cls bytes v) r (dec_blob mem r)
  unfolding dec_blob
  dec_blob-Sound r h =
      let (len, r1) = rd_u32 r in
      Sound-if _ r r1.bad _ _ (λ _. tt)
        λ good.
          let t = rd_u32-Takes r h good in
          Sound-if _ r (len == nil_text) _ _
            (λ _. ((no_text, Fits.no_bytes), omega (arith, t.taken), t.bytes_left))
            λ present.
              Sound-if _ r (ltb (length r1.rest) len) _ _ (λ _. tt)
                λ enough.
                  Sound-if _ r (mem (4 + len)) _ _
                    (λ _.
                      let width : len < 2 ^ 32 = t.bounded in
                      let few : len ≤ length r1.rest = ltb→le (length r1.rest) len enough in
                      let short : length (take len r1.rest) < nil_text =
                        omega (arith, length-take len r1.rest, ==→ne len nil_text present) in
                      (
                        (fits_text short, fits_bytes short),
                        omega (arith, t.taken, length-drop len r1.rest),
                        All-drop len r1.rest t.bytes_left,
                      ))
                    λ _. tt

  dec_tagged-Sound :
      (k : Kind)
      → Fits cls k nil
      → (body : Rbuf → Read (Value × Rbuf)) (fuel : ℕ)
      → ((r : Rbuf) → All IsByte r.rest → length r.rest < fuel → Sound (Fits cls k) r (body r))
      → (r : Rbuf) → All IsByte r.rest
      → length r.rest < suc fuel
      → Sound (Fits cls k) r (dec_tagged body r)
  unfolding dec_tagged
  dec_tagged-Sound k absent body fuel H r h lt =
      let (tag, r1) = rd_u8 r in
      Sound-if _ r r1.bad _ _ (λ _. tt)
        λ good.
          let t = rd_u8-Takes r h good in
          Sound-if _ r (tag == 0) _ _ (λ _. (absent, omega (arith, t.taken), t.bytes_left))
            λ _.
              Sound-weaken (Fits cls k) r1 r (body r1) (omega (arith, t.taken))
                (H r1 t.bytes_left (omega (arith, t.taken)))

  module _ (fuel : ℕ) (dec : Decoder) (H : Nested fuel dec) where
    dec_slots-Sound :
        (ks : List Kind) (r : Rbuf)
        → All IsByte r.rest
        → length r.rest < fuel
        → Sound (FitSlots cls ks) r (dec_slots dec ks r)
    unfolding dec_slots
    dec_slots-Sound [] r h lt = (slots_done, omega arith, h)
    dec_slots-Sound (k ∷ ks) r h lt =
        Sound-bind (Fits cls k) (FitSlots cls (k ∷ ks)) r (dec k r) _ (H k r h lt) λ v r1 fit le h1.
          Sound-weaken (FitSlots cls (k ∷ ks)) r1 r _ le (
            Sound-bind (FitSlots cls ks) (FitSlots cls (k ∷ ks)) r1 (dec_slots dec ks r1) _
              (dec_slots-Sound ks r1 h1 (omega arith))
              λ vs r2 fits le2 h2. (slots_more fit fits, le2, h2))

    -- The count comes back too: it is the `len` that the record carried.
    dec_items-Sound :
        (ek : Kind) (n : ℕ) (r : Rbuf)
        → All IsByte r.rest
        → length r.rest < fuel
        → Sound (λ vs. FitItems cls ek vs × (count vs ≡ n)) r (dec_items dec ek n r)
    unfolding dec_items
    dec_items-Sound ek zero r h lt = ((items_done, refl), omega arith, h)
    dec_items-Sound ek (suc n) r h lt =
        let P = λ (m : ℕ) (vs : Values). FitItems cls ek vs × (count vs ≡ m) in
        Sound-bind (Fits cls ek) (P (suc n)) r (dec ek r) _ (H ek r h lt) λ v r1 fit le h1.
          Sound-weaken (P (suc n)) r1 r _ le (
            Sound-bind (P n) (P (suc n)) r1 (dec_items dec ek n r1) _
              (dec_items-Sound ek n r1 h1 (omega arith))
              λ vs r2 fits le2 h2. ((items_more fit fits.0, ap suc fits.1), le2, h2))

    dec_pairs-Sound :
        (kk vk : Kind) (n : ℕ) (r : Rbuf)
        → All IsByte r.rest
        → length r.rest < fuel
        → Sound (λ ps. FitPairs cls kk vk ps × (count_pairs ps ≡ n)) r (dec_pairs dec kk vk n r)
    unfolding dec_pairs
    dec_pairs-Sound kk vk zero r h lt = ((pairs_done, refl), omega arith, h)
    dec_pairs-Sound kk vk (suc n) r h lt =
        let P = λ (m : ℕ) (ps : Pairs). FitPairs cls kk vk ps × (count_pairs ps ≡ m) in
        Sound-bind (Fits cls kk) (P (suc n)) r (dec kk r) _ (H kk r h lt) λ k r1 fit le h1.
          Sound-weaken (P (suc n)) r1 r _ le (
            Sound-bind (Fits cls vk) (P (suc n)) r1 (dec vk r1) _ (H vk r1 h1 (omega arith))
              λ v r2 fit2 le2 h2. Sound-weaken (P (suc n)) r2 r1 _ le2 (
                Sound-bind (P n) (P (suc n)) r2 (dec_pairs dec kk vk n r2) _
                  (dec_pairs-Sound kk vk n r2 h2 (omega arith))
                  λ ps r3 fits le3 h3. ((pairs_more fit fit2 fits.0, ap suc fits.1), le3, h3)))

    dec_owned-Sound :
        (r : Rbuf)
        → All IsByte r.rest
        → length r.rest < fuel
        → Sound (Fits cls owned) r (dec_owned mem cls dec r)
    unfolding dec_owned
    dec_owned-Sound r h lt =
        let (cid, r1) = rd_u32 r in
        Sound-if _ r (r1.bad || leb (length cls) cid) _ _ (λ _. tt)
          λ good.
            let t = rd_u32-Takes r h (ground arith) in
            let known : cid < length cls = ground arith in
            let ks = kinds_at cls cid in
            Sound-if _ r (mem (8 + length ks * 8)) _ _
              (λ _. Sound-weaken (Fits cls owned) r1 r _ (omega (arith, t.taken)) (
                Sound-bind (FitSlots cls ks) (Fits cls owned) r1 (dec_slots dec ks r1) _
                  (dec_slots-Sound ks r1 t.bytes_left (omega (arith, t.taken)))
                  λ slots r2 fits le h2. (fits_owned t.bounded known fits, le, h2)))
              λ _. tt

    dec_multi_items-Sound :
        (ek : Option Kind) (len : ℕ) (r : Rbuf)
        → len < 2 ^ 32
        → All IsByte r.rest
        → length r.rest < fuel
        → Sound (Fits cls multi) r (dec_multi_items mem dec ek len r)
    unfolding dec_multi_items
    dec_multi_items-Sound none len r width h lt = tt
    dec_multi_items-Sound (some ek) len r width h lt =
        Sound-if _ r (ltb (length r.rest) len) _ _ (λ _. tt)
          λ _.
            Sound-if _ r (mem (8 + len * 8)) _ _
              (λ _.
                Sound-bind (λ vs. FitItems cls ek vs × (count vs ≡ len)) (Fits cls multi) r
                  (dec_items dec ek len r) _ (dec_items-Sound ek len r h lt)
                  λ items r1 fits le h1. (fits_multi (rw fits.1 width) fits.0, le, h1))
              λ _. tt

    dec_multi-Sound :
        (r : Rbuf)
        → All IsByte r.rest
        → length r.rest < fuel
        → Sound (Fits cls multi) r (dec_multi mem dec r)
    unfolding dec_multi
    dec_multi-Sound r h lt =
        let (ek, r1) = rd_u8 r in
        let (len, r2) = rd_u32 r1 in
        Sound-if _ r r2.bad _ _ (λ _. tt)
          λ good.
            let s = rd_u8-Takes r h (rd_u32-good r1 good) in
            let t = rd_u32-Takes r1 s.bytes_left good in
            Sound-weaken (Fits cls multi) r2 r _ (omega (arith, s.taken, t.taken)) (
              dec_multi_items-Sound (kind_of ek) len r2 t.bounded t.bytes_left
                (omega (arith, s.taken, t.taken)))

    dec_map_pairs-Sound :
        (kk vk : Option Kind) (len : ℕ) (r : Rbuf)
        → len < 2 ^ 32
        → All IsByte r.rest
        → length r.rest < fuel
        → Sound (Fits cls map) r (dec_map_pairs mem dec kk vk len r)
    unfolding dec_map_pairs
    dec_map_pairs-Sound none vk len r width h lt = tt
    dec_map_pairs-Sound (some kk) none len r width h lt = tt
    dec_map_pairs-Sound (some kk) (some vk) len r width h lt =
        Sound-if _ r (ltb (length r.rest) len) _ _ (λ _. tt)
          λ _.
            Sound-if _ r (mem (8 + len * 16)) _ _
              (λ _.
                Sound-bind (λ ps. FitPairs cls kk vk ps × (count_pairs ps ≡ len)) (Fits cls map) r
                  (dec_pairs dec kk vk len r) _ (dec_pairs-Sound kk vk len r h lt)
                  λ kv r1 fits le h1. (fits_map (rw fits.1 width) fits.0, le, h1))
              λ _. tt

    dec_map-Sound :
        (r : Rbuf)
        → All IsByte r.rest
        → length r.rest < fuel
        → Sound (Fits cls map) r (dec_map mem dec r)
    unfolding dec_map
    dec_map-Sound r h lt =
        let (kk, r1) = rd_u8 r in
        let (vk, r2) = rd_u8 r1 in
        let (len, r3) = rd_u32 r2 in
        Sound-if _ r r3.bad _ _ (λ _. tt)
          λ good.
            let second = rd_u32-good r2 good in
            let s = rd_u8-Takes r h (rd_u8-good r1 second) in
            let u = rd_u8-Takes r1 s.bytes_left second in
            let t = rd_u32-Takes r2 u.bytes_left good in
            Sound-weaken (Fits cls map) r3 r _ (omega (arith, s.taken, u.taken, t.taken)) (
              dec_map_pairs-Sound (kind_of kk) (kind_of vk) len r3 t.bounded t.bytes_left
                (omega (arith, s.taken, u.taken, t.taken)))

  split_word :
      (r : Rbuf) (x : Read (Value × Rbuf))
      → Sound (λ v. Fits cls scalar v × Fits cls float v) r x
      → Sound (Fits cls scalar) r x × Sound (Fits cls float) r x
  split_word r (ok p) h = ((h.0.0, h.1, h.2), (h.0.1, h.1, h.2))
  split_word r bad_input h = (tt, tt)
  split_word r stuck h = absurd h

  split_blob :
      (r : Rbuf) (x : Read (Value × Rbuf))
      → Sound (λ v. Fits cls text v × Fits cls bytes v) r x
      → Sound (Fits cls text) r x × Sound (Fits cls bytes) r x
  split_blob r (ok p) h = ((h.0.0, h.1, h.2), (h.0.1, h.1, h.2))
  split_blob r bad_input h = (tt, tt)
  split_blob r stuck h = absurd h

  dec_kind-Sound :
      (fuel : ℕ) (dec : Decoder) → Nested fuel dec → Nested (suc fuel) (dec_kind mem cls dec)
  unfolding dec_kind
  dec_kind-Sound fuel dec H scalar r h lt = (split_word r _ (dec_word-Sound r h)).0
  dec_kind-Sound fuel dec H float r h lt = (split_word r _ (dec_word-Sound r h)).1
  dec_kind-Sound fuel dec H text r h lt = (split_blob r _ (dec_blob-Sound r h)).0
  dec_kind-Sound fuel dec H bytes r h lt = (split_blob r _ (dec_blob-Sound r h)).1
  dec_kind-Sound fuel dec H owned r h lt =
      dec_tagged-Sound owned no_owned (dec_owned mem cls dec) fuel (dec_owned-Sound fuel dec H) r h
        lt
  dec_kind-Sound fuel dec H multi r h lt =
      dec_tagged-Sound multi no_multi (dec_multi mem dec) fuel (dec_multi-Sound fuel dec H) r h lt
  dec_kind-Sound fuel dec H map r h lt =
      dec_tagged-Sound map no_map (dec_map mem dec) fuel (dec_map-Sound fuel dec H) r h lt
  dec_kind-Sound fuel dec H gcref r h lt = tt

  -- With more fuel than bytes `dec_val` ends, on any bytes and any allocator: it refuses the input,
  -- or it returns a value that the class table allows for the kind and no more bytes than before.
  pub dec_val-Sound :
      (fuel : ℕ) (k : Kind) (r : Rbuf)
      → All IsByte r.rest
      → length r.rest < fuel
      → Sound (Fits cls k) r (dec_val mem cls fuel k r)
  unfolding dec_val
  dec_val-Sound zero k r h lt = elim lt [ ]
  dec_val-Sound (suc fuel) k r h lt =
      dec_kind-Sound fuel (dec_val mem cls fuel) (dec_val-Sound fuel) k r h lt

  -- The same for the fields of a row in order.
  pub dec_row-Sound :
      (fuel : ℕ) (ks : List Kind) (r : Rbuf)
      → All IsByte r.rest
      → length r.rest < fuel
      → Sound (FitSlots cls ks) r (dec_slots (dec_val mem cls fuel) ks r)
  dec_row-Sound fuel ks r h lt =
      dec_slots-Sound fuel (dec_val mem cls fuel) (dec_val-Sound fuel) ks r h lt
