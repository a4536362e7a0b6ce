-- ===== src/Engine.antt =====
-- Engine values and their bytes in a log record: `enc_val` and `dec_val` of database/src/wal.c
-- over the value shapes of database/src/table.h.
-- A slot is 8 bytes whose meaning its kind gives; the model keeps the shape that a slot refers to,
-- and writes `nil` for the 0 of a kind that is a pointer. A slot read under a kind of another
-- shape is undefined in the source; here it writes nothing.
pub mod Encoding
pub mod Fits
pub mod Parts
pub mod RoundTrip
pub mod Sound
pub mod Decoding
use writeonce.Common.{
  ℕ, zero, suc, ◌+◌, ◌*◌, Bool, true, false, Option, none, some, List, [], ◌∷◌, length, take, drop,
  ltb, leb, ◌==◌, ◌||◌, if◌then◌else◌,
}
use writeonce.Wire.{Memory, Wbuf, Rbuf, wput, wput_u8, wput_u32, wput_u64, rd_u8, rd_u32, rd_u64}

-- WO_K_SCALAR = 0 to WO_K_BYTES = 7, in the order of their numbers.
pub data Kind : Type 0 where
  scalar owned gcref text multi map float bytes : Kind

unfoldable pub kind_byte : Kind → ℕ
kind_byte scalar = 0
kind_byte owned = 1
kind_byte gcref = 2
kind_byte text = 3
kind_byte multi = 4
kind_byte map = 5
kind_byte float = 6
kind_byte bytes = 7

-- `none` where the byte is above WO_K_MAX.
unfoldable pub kind_of : ℕ → Option Kind
kind_of zero = some scalar
kind_of (suc zero) = some owned
kind_of (suc (suc zero)) = some gcref
kind_of (suc (suc (suc zero))) = some text
kind_of (suc (suc (suc (suc zero)))) = some multi
kind_of (suc (suc (suc (suc (suc zero))))) = some map
kind_of (suc (suc (suc (suc (suc (suc zero)))))) = some float
kind_of (suc (suc (suc (suc (suc (suc (suc zero))))))) = some bytes
kind_of _ = none

mutual
  pub data Value : Type 0 where
    nil : Value
    word : ℕ → Value
    db_text : List ℕ → Value
    db_rec : ℕ → Values → Value
    db_multi : Kind → Values → Value
    db_map : Kind → Kind → Pairs → Value

  pub data Values : Type 0 where
    done : Values
    slot : Value → Values → Values

  pub data Pairs : Type 0 where
    empty : Pairs
    pair : Value → Value → Pairs → Pairs

abbrev pub count : Values → ℕ
count done = 0
count (slot v vs) = suc (count vs)

abbrev pub count_pairs : Pairs → ℕ
count_pairs empty = 0
count_pairs (pair k v ps) = suc (count_pairs ps)

-- Of a class descriptor, what the log reads; `field_cnt` is the length of `kinds`.
pub record ClassDesc : Type 0 where
  pub flags : ℕ
  pub kinds : List Kind

abbrev pub class_at : List ClassDesc → ℕ → Option ClassDesc
class_at [] i = none
class_at (c ∷ cs) zero = some c
class_at (c ∷ cs) (suc i) = class_at cs i

abbrev pub kinds_at : List ClassDesc → ℕ → List Kind
kinds_at cls i = elim (class_at cls i) [ none ↦ [] | some c ↦ c.kinds ]

-- The length that marks an absent text, WAL_NIL_TEXT.
abbrev pub nil_text : ℕ
nil_text = 0xFFFFFFFF

unfoldable mutual
  unfolding kind_byte

  pub enc_val : Memory → List ClassDesc → Wbuf → Kind → Value → Wbuf
  enc_val mem cls w scalar (word v) = wput_u64 mem w v
  enc_val mem cls w float (word v) = wput_u64 mem w v
  enc_val mem cls w text nil = wput_u32 mem w nil_text
  enc_val mem cls w text (db_text t) = wput mem (wput_u32 mem w (length t)) t
  enc_val mem cls w bytes nil = wput_u32 mem w nil_text
  enc_val mem cls w bytes (db_text t) = wput mem (wput_u32 mem w (length t)) t
  enc_val mem cls w owned nil = wput_u8 mem w 0
  enc_val mem cls w owned (db_rec cid slots) =
      enc_slots mem cls (wput_u32 mem (wput_u8 mem w 1) cid) (kinds_at cls cid) slots
  enc_val mem cls w multi nil = wput_u8 mem w 0
  enc_val mem cls w multi (db_multi ek items) =
      enc_items mem cls (wput_u32 mem (wput_u8 mem (wput_u8 mem w 1) (kind_byte ek)) (count items))
        ek items
  enc_val mem cls w map nil = wput_u8 mem w 0
  enc_val mem cls w map (db_map kk vk kv) =
      enc_pairs mem cls
        (wput_u32 mem (wput_u8 mem (wput_u8 mem (wput_u8 mem w 1) (kind_byte kk)) (kind_byte vk))
          (count_pairs kv))
        kk vk kv
  enc_val mem cls w _ _ = w

  -- The loop over the fields of a class.
  pub enc_slots : Memory → List ClassDesc → Wbuf → List Kind → Values → Wbuf
  enc_slots mem cls w (k ∷ ks) (slot v vs) = enc_slots mem cls (enc_val mem cls w k v) ks vs
  enc_slots mem cls w _ _ = w

  pub enc_items : Memory → List ClassDesc → Wbuf → Kind → Values → Wbuf
  enc_items mem cls w ek done = w
  enc_items mem cls w ek (slot v vs) = enc_items mem cls (enc_val mem cls w ek v) ek vs

  pub enc_pairs : Memory → List ClassDesc → Wbuf → Kind → Kind → Pairs → Wbuf
  enc_pairs mem cls w kk vk empty = w
  enc_pairs mem cls w kk vk (pair k v ps) =
      enc_pairs mem cls (enc_val mem cls (enc_val mem cls w kk k) vk v) kk vk ps

-- The outcome of a decode: a value, the -1 of the source, or a model that ran out of fuel.
pub data Read {ℓ} (A : Type ℓ) : Type ℓ where
  ok : A → Read A
  bad_input : Read A
  stuck : Read A

infixl 5 ◌>>=◌
abbrev pub ◌>>=◌ {ℓ κ} : {A : Type ℓ} {B : Type κ} → Read A → (A → Read B) → Read B
ok a >>= f = f a
bad_input >>= f = bad_input
stuck >>= f = stuck

abbrev pub Decoder : Type 0
Decoder = Kind → Rbuf → Read (Value × Rbuf)

unfoldable pub dec_slots : Decoder → List Kind → Rbuf → Read (Values × Rbuf)
dec_slots dec [] r = ok (done, r)
dec_slots dec (k ∷ ks) r = do (v, r1) ← dec k r; (vs, r2) ← dec_slots dec ks r1; ok (slot v vs, r2)

unfoldable pub dec_items : Decoder → Kind → ℕ → Rbuf → Read (Values × Rbuf)
dec_items dec ek zero r = ok (done, r)
dec_items dec ek (suc n) r = do
  (v, r1) ← dec ek r
  (vs, r2) ← dec_items dec ek n r1
  ok (slot v vs, r2)

unfoldable pub dec_pairs : Decoder → Kind → Kind → ℕ → Rbuf → Read (Pairs × Rbuf)
dec_pairs dec kk vk zero r = ok (empty, r)
dec_pairs dec kk vk (suc n) r = do
  (k, r1) ← dec kk r
  (v, r2) ← dec vk r1
  (ps, r3) ← dec_pairs dec kk vk n r2
  ok (pair k v ps, r3)

unfoldable pub dec_word : Rbuf → Read (Value × Rbuf)
dec_word r = let (v, r1) = rd_u64 r in if r1.bad then bad_input else ok (word v, r1)

-- The sizes asked of malloc are those of the structs of table.h with their trailing arrays.
unfoldable pub dec_blob : Memory → Rbuf → Read (Value × Rbuf)
dec_blob mem r =
    let (len, r1) = rd_u32 r in
    if r1.bad
    then bad_input
    else if len == nil_text
    then ok (nil, r1)
    else if ltb (length r1.rest) len
    then bad_input
    else if mem (4 + len)
    then ok (db_text (take len r1.rest), record r1 { rest = drop len r1.rest })
    else bad_input

-- `if (!tag) return 0`, in front of the three kinds that may be absent.
unfoldable pub dec_tagged : (Rbuf → Read (Value × Rbuf)) → Rbuf → Read (Value × Rbuf)
dec_tagged body r =
    let (tag, r1) = rd_u8 r in
    if r1.bad then bad_input else if tag == 0 then ok (nil, r1) else body r1

unfoldable pub dec_owned : Memory → List ClassDesc → Decoder → Rbuf → Read (Value × Rbuf)
unfolding dec_slots
dec_owned mem cls dec r =
    let (cid, r1) = rd_u32 r in
    if r1.bad || leb (length cls) cid
    then bad_input
    else if mem (8 + length (kinds_at cls cid) * 8)
    then (do (slots, r2) ← dec_slots dec (kinds_at cls cid) r1; ok (db_rec cid slots, r2))
    else bad_input

-- From the test of the element kind on.
unfoldable pub dec_multi_items : Memory → Decoder → Option Kind → ℕ → Rbuf → Read (Value × Rbuf)
unfolding dec_items
dec_multi_items mem dec none len r = bad_input
dec_multi_items mem dec (some ek) len r =
    if ltb (length r.rest) len
    then bad_input
    else if mem (8 + len * 8)
    then (do (items, r1) ← dec_items dec ek len r; ok (db_multi ek items, r1))
    else bad_input

unfoldable pub dec_multi : Memory → Decoder → Rbuf → Read (Value × Rbuf)
unfolding dec_multi_items kind_of
dec_multi mem dec r =
    let (ek, r1) = rd_u8 r in
    let (len, r2) = rd_u32 r1 in
    if r2.bad then bad_input else dec_multi_items mem dec (kind_of ek) len r2

-- From the tests of the two kinds on.
unfoldable pub dec_map_pairs :
    Memory → Decoder → Option Kind → Option Kind → ℕ → Rbuf → Read (Value × Rbuf)
unfolding dec_pairs
dec_map_pairs mem dec none vk len r = bad_input
dec_map_pairs mem dec (some kk) none len r = bad_input
dec_map_pairs mem dec (some kk) (some vk) len r =
    if ltb (length r.rest) len
    then bad_input
    else if mem (8 + len * 16)
    then (do (kv, r1) ← dec_pairs dec kk vk len r; ok (db_map kk vk kv, r1))
    else bad_input

unfoldable pub dec_map : Memory → Decoder → Rbuf → Read (Value × Rbuf)
unfolding dec_map_pairs kind_of
dec_map mem dec r =
    let (kk, r1) = rd_u8 r in
    let (vk, r2) = rd_u8 r1 in
    let (len, r3) = rd_u32 r2 in
    if r3.bad then bad_input else dec_map_pairs mem dec (kind_of kk) (kind_of vk) len r3

-- The switch of `dec_val`; the values inside are read by `dec`.
unfoldable pub dec_kind : Memory → List ClassDesc → Decoder → Decoder
unfolding dec_word dec_blob dec_tagged dec_owned dec_multi dec_map
dec_kind mem cls dec scalar r = dec_word r
dec_kind mem cls dec float r = dec_word r
dec_kind mem cls dec text r = dec_blob mem r
dec_kind mem cls dec bytes r = dec_blob mem r
dec_kind mem cls dec owned r = dec_tagged (dec_owned mem cls dec) r
dec_kind mem cls dec multi r = dec_tagged (dec_multi mem dec) r
dec_kind mem cls dec map r = dec_tagged (dec_map mem dec) r
dec_kind mem cls dec gcref r = bad_input

-- The fuel bounds the nesting of values; each level has taken a byte at least.
unfoldable pub dec_val : Memory → List ClassDesc → ℕ → Decoder
unfolding dec_kind
dec_val mem cls zero k r = stuck
dec_val mem cls (suc fuel) k r = dec_kind mem cls (dec_val mem cls fuel) k r
