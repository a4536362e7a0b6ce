-- ===== src/Schema.antt =====
-- The schema record of a log (`wo_schema_encode` and `wo_schema_decode` of database/src/wal.c).
-- The counts of the structs are the lengths of the lists. Names are the bytes that the source
-- points to.
pub mod RoundTrip
pub mod Gives
pub mod Canonical
use writeonce.Common.{
  ℕ, zero, suc, ◌+◌, ◌*◌, ◌%◌, ◌^◌, Bool, true, false, not, ◌||◌, ◌&&◌, Option, none, some, List,
  [], ◌∷◌, length, take, drop, get_or, ltb, ◌==◌, if◌then◌else◌, max,
}
use writeonce.Wire.{Memory, Wbuf, Rbuf, no_bytes, reader, wput, wput_u8, wput_u32, rd_u8, rd_u32}
use writeonce.Engine.{Read, ok, bad_input, stuck, ◌>>=◌}
use writeonce.Wal.{wal_schema}

pub record SchemaField : Type 0 where
  pub name : List ℕ
  pub kind : ℕ
  pub fclass : ℕ
  pub felem : ℕ

pub record SchemaClass : Type 0 where
  pub name : List ℕ
  pub flags : ℕ
  pub fields : List SchemaField

pub record Schema : Type 0 where
  pub classes : List SchemaClass

-- The two writes of a name, and the loops of `wo_schema_encode`.
unfoldable pub put_name : Memory → Wbuf → List ℕ → Wbuf
put_name mem w name = wput mem (wput_u32 mem w (length name)) name

unfoldable pub put_fields : Memory → Wbuf → List SchemaField → Wbuf
unfolding put_name
put_fields mem w [] = w
put_fields mem w (f ∷ fs) =
    put_fields mem
      (wput_u32 mem (wput_u32 mem (wput_u8 mem (put_name mem w f.name) f.kind) f.fclass) f.felem) fs

unfoldable pub put_classes : Memory → Wbuf → List SchemaClass → Wbuf
unfolding put_name put_fields
put_classes mem w [] = w
put_classes mem w (k ∷ ks) =
    put_classes mem
      (put_fields mem
        (wput_u32 mem (wput_u32 mem (put_name mem w k.name) k.flags) (length k.fields)) k.fields)
      ks

-- `none` for the result -1; else the bytes that *len_out, of 32 bits, counts.
unfoldable pub schema_encode : Memory → Schema → Option (List ℕ)
unfolding put_classes
schema_encode mem sc =
    let p =
      put_classes mem (wput_u32 mem (wput_u8 mem no_bytes wal_schema) (length sc.classes))
        sc.classes in
    if p.oom then none else some (take (length p.bytes % 2 ^ 32) p.bytes)

abbrev pub max_count : ℕ
max_count = 65536

-- `bad_input` where the source goes to `bad`.
unfoldable pub read_name : Rbuf → Read (List ℕ × Rbuf)
read_name r =
    let (len, r1) = rd_u32 r in
    if r1.bad || ltb (length r1.rest) len
    then bad_input
    else ok (take len r1.rest, record r1 { rest = drop len r1.rest })

unfoldable pub after_field_name : List ℕ × Rbuf → Read (SchemaField × Rbuf)
after_field_name (name, r) =
    let (kind, r1) = rd_u8 r in
    let (fclass, r2) = rd_u32 r1 in
    let (felem, r3) = rd_u32 r2 in
    if r3.bad
    then bad_input
    else ok (record { name = name; kind = kind; fclass = fclass; felem = felem }, r3)

unfoldable pub read_fields : ℕ → Rbuf → Read (List SchemaField × Rbuf)
unfolding read_name after_field_name
read_fields zero r = ok ([], r)
read_fields (suc n) r = do
  (f, r1) ← read_name r >>= after_field_name
  (fs, r2) ← read_fields n r1
  ok (f ∷ fs, r2)

-- The sizes of calloc are those of `wo_schema_field`, `wo_schema_class` and `wo_schema`.
unfoldable pub after_class_name : Memory → List ℕ × Rbuf → Read (SchemaClass × Rbuf)
unfolding read_fields
after_class_name mem (name, r) =
    let (flags, r1) = rd_u32 r in
    let (field_cnt, r2) = rd_u32 r1 in
    if r2.bad || ltb max_count field_cnt
    then bad_input
    else if mem (max field_cnt 1 * 24)
    then (do
      (fields, r3) ← read_fields field_cnt r2
      ok (record { name = name; flags = flags; fields = fields }, r3))
    else bad_input

unfoldable pub read_classes : Memory → ℕ → Rbuf → Read (List SchemaClass × Rbuf)
unfolding read_name after_class_name
read_classes mem zero r = ok ([], r)
read_classes mem (suc n) r = do
  (k, r1) ← read_name r >>= after_class_name mem
  (ks, r2) ← read_classes mem n r1
  ok (k ∷ ks, r2)

-- The test for trailing bytes; `none` for the result NULL.
unfoldable pub whole_schema : Read (List SchemaClass × Rbuf) → Option Schema
whole_schema (ok (ks, r)) = if length r.rest == 0 then some (record { classes = ks }) else none
whole_schema _ = none

-- From the first class count on.
unfoldable pub schema_body : Memory → Rbuf → Option Schema
unfolding read_classes whole_schema
schema_body mem r =
    let (class_cnt, r1) = rd_u32 r in
    if r1.bad || ltb max_count class_cnt
    then none
    else if mem (max class_cnt 1 * 32)
    then whole_schema (read_classes mem class_cnt r1)
    else none

unfoldable pub schema_decode : Memory → List ℕ → Option Schema
unfolding schema_body
schema_decode mem payload =
    if ltb (length payload) 5 || not (get_or payload 0 0 == wal_schema)
    then none
    else if mem 24 && mem (length payload)
    then schema_body mem (reader (drop 1 payload))
    else none
