-- ===== src/Schema/RoundTrip.antt =====
-- `wo_schema_decode` reads back what `wo_schema_encode` wrote (both of database/src/wal.c).
use writeonce.Common.{
  ℕ, ◌*◌, ◌^◌, ◌≤◌, ◌<◌, ◌≡◌, refl, ◌∙◌, sym, ap, ◌%◌, take, true, false, some, List, [], ◌∷◌, ◌++◌,
  length, drop, get_or, length-append, take-length_append, drop-length_append, All, le→ltb, max,
  arith,
}
use writeonce.Wal.Positions.{take_beyond}
use writeonce.Wire.{Memory, Wbuf, no_bytes, reader, wput_u8, wput_u32, le_bytes}
use writeonce.Wire.Integers.{length-le_bytes}
use writeonce.Wire.Appending.{Appends, Appends-append, wput-Appends, Appends-nil}
use writeonce.Wire.Reading.{rd_u8-append, rd_u32-append}
use writeonce.Engine.{ok}
use writeonce.Engine.Encoding.{u8, u32, wput_u8-Appends, wput_u32-Appends}
use writeonce.Wal.{wal_schema}
use writeonce.Schema.{
  SchemaField, SchemaClass, Schema, put_name, put_fields, put_classes, schema_encode, max_count,
  read_name, after_field_name, read_fields, after_class_name, read_classes, whole_schema,
  schema_body, schema_decode,
}

-- The layout, in front of the bytes that follow.
abbrev pub fields_onto : List SchemaField → List ℕ → List ℕ
fields_onto [] rest = rest
fields_onto (f ∷ fs) rest =
    u32 (length f.name)
    ++ (f.name ++ (u8 f.kind ++ (u32 f.fclass ++ (u32 f.felem ++ fields_onto fs rest))))

abbrev pub classes_onto : List SchemaClass → List ℕ → List ℕ
classes_onto [] rest = rest
classes_onto (k ∷ ks) rest =
    u32 (length k.name)
    ++ (k.name
        ++ (u32 k.flags ++ (u32 (length k.fields) ++ fields_onto k.fields (classes_onto ks rest))))

abbrev pub schema_bytes : Schema → List ℕ
schema_bytes sc = u8 wal_schema ++ (u32 (length sc.classes) ++ classes_onto sc.classes [])

module _ (mem : Memory) where
  put_name-Appends :
      (w w' : Wbuf) (name q : List ℕ)
      → Appends (put_name mem w name) w' q
      → Appends w w' (u32 (length name) ++ (name ++ q))
  unfolding put_name
  put_name-Appends w w' name q more =
      Appends-append (wput_u32-Appends mem w (length name))
        (Appends-append (wput-Appends mem _ name) more)

  put_fields-Appends :
      (fs : List SchemaField) (w w' : Wbuf) (q : List ℕ)
      → Appends (put_fields mem w fs) w' q
      → Appends w w' (fields_onto fs q)
  unfolding put_fields
  put_fields-Appends [] w w' q more = more
  put_fields-Appends (f ∷ fs) w w' q more = put_name-Appends w w' f.name _ (
      Appends-append (wput_u8-Appends mem _ f.kind) (
        Appends-append (wput_u32-Appends mem _ f.fclass)
          (Appends-append (wput_u32-Appends mem _ f.felem) (put_fields-Appends fs _ w' q more))))

  put_classes-Appends :
      (ks : List SchemaClass) (w w' : Wbuf) (q : List ℕ)
      → Appends (put_classes mem w ks) w' q
      → Appends w w' (classes_onto ks q)
  unfolding put_classes
  put_classes-Appends [] w w' q more = more
  put_classes-Appends (k ∷ ks) w w' q more = put_name-Appends w w' k.name _ (
      Appends-append (wput_u32-Appends mem _ k.flags) (
        Appends-append (wput_u32-Appends mem _ (length k.fields))
          (put_fields-Appends k.fields _ w' _ (put_classes-Appends ks _ w' q more))))

  pub schema_encode-bytes :
      (sc : Schema) (p : List ℕ)
      → length (schema_bytes sc) < 2 ^ 32
      → schema_encode mem sc ≡ some p
      → p ≡ schema_bytes sc
  unfolding schema_encode
  schema_encode-bytes sc p small e =
      let start = wput_u32 mem (wput_u8 mem no_bytes wal_schema) (length sc.classes) in
      let end = put_classes mem start sc.classes in
      let put : Appends no_bytes end (schema_bytes sc) =
        Appends-append (wput_u8-Appends mem no_bytes wal_schema) (
          Appends-append (wput_u32-Appends mem _ (length sc.classes))
            (put_classes-Appends sc.classes start end [] (Appends-nil end))) in
      let good : end.oom ≡ false = ground arith in
      let same : take (length end.bytes % 2 ^ 32) end.bytes ≡ p = ground arith in
      let bytes : end.bytes ≡ schema_bytes sc = put.appended good in
      let size : length end.bytes ≡ length (schema_bytes sc) =
        ap (λ (t : List ℕ). length t) bytes in
      sym same
      ∙ take_beyond (length end.bytes % 2 ^ 32) end.bytes (omega (arith, size, small))
      ∙ bytes

-- Numbers within the widths of the structs and the counts within the limit of the decoder.
pub record FieldFits (f : SchemaField) : Type 0 where
  pub name_width : length f.name < 2 ^ 32
  pub kind_width : f.kind < 2 ^ 8
  pub fclass_width : f.fclass < 2 ^ 32
  pub felem_width : f.felem < 2 ^ 32

pub record ClassFits (k : SchemaClass) : Type 0 where
  pub name_width : length k.name < 2 ^ 32
  pub flags_width : k.flags < 2 ^ 32
  pub few_fields : length k.fields ≤ max_count
  pub fields_fit : All FieldFits k.fields

pub record SchemaFits (sc : Schema) : Type 0 where
  pub few_classes : length sc.classes ≤ max_count
  pub classes_fit : All ClassFits sc.classes

read_name-append :
    (name rest : List ℕ)
    → length name < 2 ^ 32
    → read_name (reader (u32 (length name) ++ (name ++ rest))) ≡ ok (name, reader rest)
unfolding read_name
read_name-append name rest h =
    rw
      (
        rd_u32-append (length name) (name ++ rest) h,
        le→ltb (length (name ++ rest)) (length name) (omega (arith, length-append name rest)),
        take-length_append (length name) name rest refl,
        drop-length_append (length name) name rest refl,
      )
      refl

read_fields-onto :
    (fs : List SchemaField) (rest : List ℕ)
    → All FieldFits fs
    → read_fields (length fs) (reader (fields_onto fs rest)) ≡ ok (fs, reader rest)
unfolding read_fields after_field_name
read_fields-onto [] rest h = refl
read_fields-onto (f ∷ fs) rest (fit, fits) =
    let behind = fields_onto fs rest in
    rw
      (
        read_name-append f.name (u8 f.kind ++ (u32 f.fclass ++ (u32 f.felem ++ behind)))
            fit.name_width,
        rd_u8-append f.kind (u32 f.fclass ++ (u32 f.felem ++ behind)) fit.kind_width,
        rd_u32-append f.fclass (u32 f.felem ++ behind) fit.fclass_width,
        rd_u32-append f.felem behind fit.felem_width,
        read_fields-onto fs rest fits,
      )
      refl

module _ (mem : Memory) (all : (n : ℕ) → mem n ≡ true) where
  read_classes-onto :
      (ks : List SchemaClass) (rest : List ℕ)
      → All ClassFits ks
      → read_classes mem (length ks) (reader (classes_onto ks rest)) ≡ ok (ks, reader rest)
  unfolding read_classes after_class_name
  read_classes-onto [] rest h = refl
  read_classes-onto (k ∷ ks) rest (fit, fits) =
      let behind = fields_onto k.fields (classes_onto ks rest) in
      rw
        (
          read_name-append k.name (u32 k.flags ++ (u32 (length k.fields) ++ behind)) fit.name_width,
          rd_u32-append k.flags (u32 (length k.fields) ++ behind) fit.flags_width,
          rd_u32-append (length k.fields) behind (omega (arith, fit.few_fields)),
          le→ltb max_count (length k.fields) fit.few_fields,
          all (max (length k.fields) 1 * 24),
          read_fields-onto k.fields (classes_onto ks rest) fit.fields_fit,
          read_classes-onto ks rest fits,
        )
        refl

  schema_body-onto :
      (sc : Schema)
      → SchemaFits sc
      → schema_body mem (reader (u32 (length sc.classes) ++ classes_onto sc.classes [])) ≡ some sc
  unfolding schema_body whole_schema
  schema_body-onto sc fit =
      rw
        (
          rd_u32-append (length sc.classes) (classes_onto sc.classes [])
              (omega (arith, fit.few_classes)),
          le→ltb max_count (length sc.classes) fit.few_classes,
          all (max (length sc.classes) 1 * 32),
          read_classes-onto sc.classes [] fit.classes_fit,
        )
        refl

  -- With memory for every request: a schema within the widths of its structs and the limits of the
  -- decoder, whose encoding has less than 2^32 bytes, is encoded to bytes from which `wo_schema_decode` makes the same schema.
  pub schema_decode-encode :
      (sc : Schema) (p : List ℕ)
      → SchemaFits sc
      → length (schema_bytes sc) < 2 ^ 32
      → schema_encode mem sc ≡ some p
      → schema_decode mem p ≡ some sc
  unfolding schema_decode
  schema_decode-encode sc p fit small e =
      let tail = u32 (length sc.classes) ++ classes_onto sc.classes [] in
      let long : 5 ≤ length (u8 wal_schema ++ tail) = omega (
        arith,
        length-append (u8 wal_schema) tail,
        length-le_bytes 1 wal_schema,
        length-append (u32 (length sc.classes)) (classes_onto sc.classes []),
        length-le_bytes 4 (length sc.classes),
      ) in
      let first : get_or (u8 wal_schema ++ tail) 0 0 ≡ wal_schema = unfold le_bytes in refl in
      let behind : drop 1 (u8 wal_schema ++ tail) ≡ tail =
        drop-length_append 1 (u8 wal_schema) tail (length-le_bytes 1 wal_schema) in
      rw
        (
          schema_encode-bytes mem sc p small e,
          le→ltb (length (u8 wal_schema ++ tail)) 5 long,
          first,
          all 24,
          all (length (u8 wal_schema ++ tail)),
          behind,
        )
        (schema_body-onto sc fit)
