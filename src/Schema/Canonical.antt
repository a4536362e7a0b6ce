-- ===== src/Schema/Canonical.antt =====
-- Each schema has one encoding that `wo_schema_decode` (database/src/wal.c) accepts.
use writeonce.Common.{
  ℕ, zero, suc, ◌*◌, ◌^◌, ◌<◌, ◌≤◌, ◌≡◌, refl, ◌∙◌, sym, ap, ap₂, false, ◌||◌, some, List, [], ◌∷◌,
  ◌++◌, length, take, drop, get_or, length-take, take-append-drop, All, ltb, ◌==◌, ==→eq,
  Bool-cases, inl, inr, max, arith,
}
use writeonce.Wire.{Memory, Rbuf, reader, le_bytes, rd_u8, rd_u32}
use writeonce.Wire.Integers.{IsByte}
use writeonce.Engine.{Read, ok, bad_input, stuck, ◌>>=◌}
use writeonce.Engine.Encoding.{u8, u32}
use writeonce.Engine.Sound.{All-drop, rd_u8-Takes, rd_u32-Takes, rd_u32-good}
use writeonce.Wal.{wal_schema}
use writeonce.Wal.Positions.{no_bytes_left}
use writeonce.Schema.{
  SchemaField, SchemaClass, Schema, schema_encode, max_count, read_name, after_field_name,
  read_fields, after_class_name, read_classes, whole_schema, schema_body, schema_decode,
}
use writeonce.Schema.RoundTrip.{fields_onto, classes_onto, schema_bytes, schema_encode-bytes}
use writeonce.Schema.Gives.{rd_u8-bytes, rd_u32-bytes, Gives, Gives-if, Gives-bind}

abbrev IsName : List ℕ → List ℕ → List ℕ → Type 0
IsName name before after = before ≡ u32 (length name) ++ (name ++ after)

abbrev IsField : SchemaField → List ℕ → List ℕ → Type 0
IsField f before after = before ≡ fields_onto (f ∷ []) after

abbrev IsFields : ℕ → List SchemaField → List ℕ → List ℕ → Type 0
IsFields n fs before after = (before ≡ fields_onto fs after) × (length fs ≡ n)

abbrev IsClass : SchemaClass → List ℕ → List ℕ → Type 0
IsClass k before after = before ≡ classes_onto (k ∷ []) after

abbrev IsClasses : ℕ → List SchemaClass → List ℕ → List ℕ → Type 0
IsClasses n ks before after = (before ≡ classes_onto ks after) × (length ks ≡ n)

read_name-Gives : (r : Rbuf) → All IsByte r.rest → Gives IsName r (read_name r)
unfolding read_name
read_name-Gives r h =
    let (len, r1) = rd_u32 r in
    Gives-if IsName r (r1.bad || ltb (length r1.rest) len) _ _ (λ _. tt)
      λ good.
        let fine : r1.bad ≡ false = ground arith in
        let few : len ≤ length r1.rest = ground arith in
        let t = rd_u32-Takes r h fine in
        let size : length (take len r1.rest) ≡ len = omega (arith, length-take len r1.rest) in
        (
          rd_u32-bytes r h fine
              ∙ ap₂ (λ n t. u32 n ++ t) (sym size) (sym (take-append-drop len r1.rest)),
          All-drop len r1.rest t.bytes_left,
        )

entry-IsField-Gives :
    (r : Rbuf) → All IsByte r.rest → Gives IsField r (read_name r >>= after_field_name)
unfolding after_field_name
entry-IsField-Gives r h =
    Gives-bind IsName IsField r r (read_name r) after_field_name (read_name-Gives r h)
      λ name r0 at_name h0.
        let (kind, r1) = rd_u8 r0 in
        let (fclass, r2) = rd_u32 r1 in
        let (felem, r3) = rd_u32 r2 in
        Gives-if IsField r r3.bad _ _ (λ _. tt)
          λ fine3.
            let fine2 = rd_u32-good r2 fine3 in
            let fine1 = rd_u32-good r1 fine2 in
            let h1 = (rd_u8-Takes r0 h0 fine1).bytes_left in
            let h2 = (rd_u32-Takes r1 h1 fine2).bytes_left in
            let last = rd_u32-bytes r2 h2 fine3 in
            let middle = rd_u32-bytes r1 h1 fine2 ∙ ap (λ t. u32 fclass ++ t) last in
            let first = rd_u8-bytes r0 h0 fine1 ∙ ap (λ t. u8 kind ++ t) middle in
            (
              at_name ∙ ap (λ t. u32 (length name) ++ (name ++ t)) first,
              (rd_u32-Takes r2 h2 fine3).bytes_left,
            )

read_fields-Gives : (n : ℕ) (r : Rbuf) → All IsByte r.rest → Gives (IsFields n) r (read_fields n r)
unfolding read_fields
read_fields-Gives zero r h = ((refl, refl), h)
read_fields-Gives (suc n) r h =
    Gives-bind IsField (IsFields (suc n)) r r (read_name r >>= after_field_name) _
      (entry-IsField-Gives r h)
      λ f r1 at_f h1.
        Gives-bind (IsFields n) (IsFields (suc n)) r1 r (read_fields n r1) _
          (read_fields-Gives n r1 h1)
          λ fs r2 at_fs h2. (
            (
              at_f
                  ∙ ap
                      (λ t.
                        u32 (length f.name)
                        ++ (f.name ++ (u8 f.kind ++ (u32 f.fclass ++ (u32 f.felem ++ t)))))
                      at_fs.0,
              ap suc at_fs.1,
            ),
            h2,
          )

module _ (mem : Memory) where
  entry-IsClass-Gives :
      (r : Rbuf) → All IsByte r.rest → Gives IsClass r (read_name r >>= after_class_name mem)
  unfolding after_class_name
  entry-IsClass-Gives r h =
      Gives-bind IsName IsClass r r (read_name r) (after_class_name mem) (read_name-Gives r h)
        λ name r0 at_name h0.
          let (flags, r1) = rd_u32 r0 in
          let (field_cnt, r2) = rd_u32 r1 in
          Gives-if IsClass r (r2.bad || ltb max_count field_cnt) _ _ (λ _. tt)
            λ good.
              let fine2 : r2.bad ≡ false = ground arith in
              let fine1 = rd_u32-good r1 fine2 in
              let h1 = (rd_u32-Takes r0 h0 fine1).bytes_left in
              let h2 = (rd_u32-Takes r1 h1 fine2).bytes_left in
              let counted = rd_u32-bytes r1 h1 fine2 in
              let flagged = rd_u32-bytes r0 h0 fine1 ∙ ap (λ t. u32 flags ++ t) counted in
              Gives-if IsClass r (mem (max field_cnt 1 * 24)) _ _
                (λ _.
                  Gives-bind (IsFields field_cnt) IsClass r2 r (read_fields field_cnt r2) _
                    (read_fields-Gives field_cnt r2 h2)
                    λ fields r3 at_fields h3. (
                      at_name
                          ∙ ap (λ t. u32 (length name) ++ (name ++ t))
                              (flagged
                                ∙ ap₂ (λ n t. u32 flags ++ (u32 n ++ t)) (sym at_fields.1)
                                    at_fields.0),
                      h3,
                    ))
                λ _. tt

  read_classes-Gives :
      (n : ℕ) (r : Rbuf) → All IsByte r.rest → Gives (IsClasses n) r (read_classes mem n r)
  unfolding read_classes
  read_classes-Gives zero r h = ((refl, refl), h)
  read_classes-Gives (suc n) r h =
      Gives-bind IsClass (IsClasses (suc n)) r r (read_name r >>= after_class_name mem) _
        (entry-IsClass-Gives r h)
        λ k r1 at_k h1.
          Gives-bind (IsClasses n) (IsClasses (suc n)) r1 r (read_classes mem n r1) _
            (read_classes-Gives n r1 h1)
            λ ks r2 at_ks h2. (
              (
                at_k
                    ∙ ap
                        (λ t.
                          u32 (length k.name)
                          ++ (k.name
                              ++ (u32 k.flags
                                  ++ (u32 (length k.fields) ++ fields_onto k.fields t))))
                        at_ks.0,
                ap suc at_ks.1,
              ),
              h2,
            )

  whole_schema-bytes :
      (n : ℕ) (r : Rbuf) (x : Read (List SchemaClass × Rbuf)) (sc : Schema)
      → Gives (IsClasses n) r x
      → whole_schema x ≡ some sc
      → (r.rest ≡ classes_onto sc.classes []) × (length sc.classes ≡ n)
  unfolding whole_schema
  whole_schema-bytes n r (ok (ks, r1)) sc g e = elim (Bool-cases (length r1.rest == 0)) [
    | inl all_read ↦
        let same : ks ≡ sc.classes = ground arith in
        let nothing = no_bytes_left r1.rest (==→eq (length r1.rest) 0 all_read) in
        (
          g.0.0 ∙ ap₂ (λ l t. classes_onto l t) same nothing,
          ap (λ (l : List SchemaClass). length l) (sym same) ∙ g.0.1,
        )
    | inr trailing ↦ absurd (ground (arith, trailing, e))
  ]
  whole_schema-bytes n r bad_input sc g e = absurd (ground (arith, e))
  whole_schema-bytes n r stuck sc g e = absurd (ground (arith, e))

  body_parts :
      (r : Rbuf) (sc : Schema)
      → schema_body mem r ≡ some sc
      → ((rd_u32 r).1.bad ≡ false)
        × (whole_schema (read_classes mem (rd_u32 r).0 (rd_u32 r).1) ≡ some sc)
  unfolding schema_body
  body_parts r sc e = ground arith

  decode_parts :
      (p : List ℕ) (sc : Schema)
      → schema_decode mem p ≡ some sc
      → (5 ≤ length p)
        × (get_or p 0 0 ≡ wal_schema)
        × (schema_body mem (reader (drop 1 p)) ≡ some sc)
  unfolding schema_decode
  decode_parts p sc e = ground arith

first_byte : (p : List ℕ) → 1 ≤ length p → get_or p 0 0 ≡ wal_schema → p ≡ u8 wal_schema ++ drop 1 p
unfolding le_bytes
first_byte [] h e = absurd (omega arith)
first_byte (b ∷ p) h e = ap (λ c. c ∷ p) e

-- If `wo_schema_decode` makes a schema of less than 2^32 bytes and `wo_schema_encode` encodes that schema, with
-- any allocators, it makes the same bytes.
pub schema_encode-decode :
    (mem mem' : Memory) (sc : Schema) (p q : List ℕ)
    → All IsByte p
    → length p < 2 ^ 32
    → schema_decode mem p ≡ some sc
    → schema_encode mem' sc ≡ some q
    → q ≡ p
schema_encode-decode mem mem' sc p q h small decoded encoded =
    let (long, first, body) = decode_parts mem p sc decoded in
    let r = reader (drop 1 p) in
    let bytes = All-drop 1 p h in
    let (fine, read) = body_parts mem r sc body in
    let (n, r1) = rd_u32 r in
    let (onto, size) =
      whole_schema-bytes mem n r1 (read_classes mem n r1) sc
        (read_classes-Gives mem n r1 (rd_u32-Takes r bytes fine).bytes_left) read in
    let same : p ≡ schema_bytes sc =
      first_byte p (omega arith) first
      ∙ ap (λ t. u8 wal_schema ++ t)
          (rd_u32-bytes r bytes fine ∙ ap₂ (λ k t. u32 k ++ t) (sym size) onto) in
    let whole : length p ≡ length (schema_bytes sc) = ap (λ (t : List ℕ). length t) same in
    schema_encode-bytes mem' sc q (omega (arith, whole, small)) encoded ∙ sym same
