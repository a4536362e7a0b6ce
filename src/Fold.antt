-- ===== src/Fold.antt =====
-- Reading one row back out of the log (database/src/wal.c): `scan_record_staged`, and
-- `wo_wal_fold_row_at`, which walks from a row's newest record along its deltas to a full row.
-- A call leaves the rows of the tables alone, so that of the database only the classes are needed.
pub mod Staged
pub mod History
pub mod Appended
pub mod Ends
use writeonce.Common.{
  ℕ, zero, suc, ◌+◌, ◌-◌, ◌*◌, Bool, true, false, not, ◌||◌, ◌&&◌, Option, none, some, List, [],
  ◌∷◌, ◌⊎◌, inl, inr, length, take, drop, replicate, get_or, ltb, leb, ◌==◌, if◌then◌else◌,
}
use writeonce.Wire.{Memory, Rbuf, reader, rd_u8, rd_u32, rd_u64}
use writeonce.Crc.{crc32}
use writeonce.Engine.{
  Kind, scalar, Value, Values, done, slot, ClassDesc, kinds_at, Read, ok, bad_input, stuck,
  dec_slots, dec_val,
}
use writeonce.Log.{mark, max_payload, field_at, scan_record}
use writeonce.Wal.{Wal, wal_insert, wal_update, wal_delta}

-- The tests on a header read from the staged bytes, and on what follows it.
unfoldable pub staged_payload : Memory → ℕ → ℕ → ℕ → List ℕ → Option (List ℕ)
staged_payload mem rel len crc buf =
    let payload = drop (rel + 8) buf in
    if len == 0 || ltb max_payload len
    then none
    else if ltb (length buf) (rel + 8 + len + 4)
    then none
    else if not (field_at len payload == mark) || not (crc32 (take len payload) == crc)
    then none
    else if mem (len + 4)
    then some (take len payload)
    else none

unfoldable pub scan_record_staged : Memory → Wal → ℕ → Option (List ℕ)
unfolding staged_payload
scan_record_staged mem w off =
    let rel = off - w.off in
    if ltb off w.off
    then none
    else if ltb (length w.buf) (rel + 8)
    then none
    else staged_payload mem rel (field_at rel w.buf) (field_at (rel + 4) w.buf) w.buf

-- The source of one hop: the staged bytes or the file.
unfoldable pub record_at : Memory → Wal → ℕ → Option (List ℕ)
record_at mem w cur =
    if leb w.off cur && ltb cur (w.off + length w.buf)
    then scan_record_staged mem w cur
    else scan_record mem w.file cur

-- The messages of the fold, in the order of the source. `no_memory` is the result -2.
pub data FoldError : Type 0 where
  no_record bad_header no_memory other_row bad_delta not_earlier bad_value tombstone bad_row
        trailing_bytes :
      FoldError

-- A row with its class, id, values and the deltas crossed; an error with the deltas crossed; or a
-- model that ran out of fuel.
pub data Folded : Type 0 where
  row : ℕ → ℕ → Values → ℕ → Folded
  refused : FoldError → ℕ → Folded
  exhausted : Folded

-- What the loop has found: class and id of the first record, for each field the value of the newest
-- delta, and the deltas crossed.
pub record Chain : Type 0 where
  pub cid : ℕ
  pub id : ℕ
  pub resolved : List (Option Value)
  pub hops : ℕ

unfoldable pub hops_of : Option Chain → ℕ
hops_of none = 0
hops_of (some ch) = ch.hops

-- The two calloc of the first record, or the comparison with it.
unfoldable pub identify : Memory → List ClassDesc → Option Chain → ℕ → ℕ → FoldError ⊎ Chain
identify mem cls none cid id =
    let field_cnt = length (kinds_at cls cid) in
    if field_cnt == 0 || (mem field_cnt && mem (field_cnt * 8))
    then inr (record { cid = cid; id = id; resolved = replicate field_cnt none; hops = 0 })
    else inl no_memory
identify mem cls (some ch) cid id = if cid == ch.cid && id == ch.id then inr ch else inl other_row

-- A value for a field that no newer delta has claimed.
unfoldable pub claim : ℕ → Value → List (Option Value) → List (Option Value)
claim i v [] = []
claim zero v (none ∷ rs) = some v ∷ rs
claim zero v (some newer ∷ rs) = some newer ∷ rs
claim (suc i) v (r ∷ rs) = r ∷ claim i v rs

-- The decoded row under the resolved values.
unfoldable pub overlay : List (Option Value) → Values → Values
overlay (some v ∷ rs) (slot old vs) = slot v (overlay rs vs)
overlay (none ∷ rs) (slot old vs) = slot old (overlay rs vs)
overlay _ vs = vs

-- The rest of the walk, from an offset on.
abbrev pub Walk : Type 0
Walk = ℕ → Chain → Folded

unfoldable pub on_value : Walk → ℕ → ℕ → Chain → Read (Value × Rbuf) → Folded
unfolding claim
on_value next back field ch (ok (v, r)) =
    if not (length r.rest == 0)
    then refused bad_value ch.hops
    else next back (record ch { resolved = claim field v ch.resolved; hops = ch.hops + 1 })
on_value next back field ch bad_input = refused bad_value ch.hops
on_value next back field ch stuck = exhausted

unfoldable pub on_delta : Walk → Memory → List ClassDesc → ℕ → Rbuf → Chain → Folded
unfolding on_value
on_delta next mem cls cur r ch =
    let (field, r1) = rd_u32 r in
    let (back, r2) = rd_u64 r1 in
    if r2.bad || leb (length (kinds_at cls ch.cid)) field
    then refused bad_delta ch.hops
    else if leb cur back
    then refused not_earlier ch.hops
    else on_value next back field ch
        (dec_val mem cls (suc (length r2.rest)) (get_or (kinds_at cls ch.cid) field scalar) r2)

unfoldable pub on_fields : Chain → Read (Values × Rbuf) → Folded
unfolding overlay
on_fields ch (ok (vs, r)) =
    if length r.rest == 0
    then row ch.cid ch.id (overlay ch.resolved vs) ch.hops
    else refused trailing_bytes ch.hops
on_fields ch bad_input = refused bad_row ch.hops
on_fields ch stuck = exhausted

unfoldable pub on_row : Memory → List ClassDesc → Rbuf → Chain → Folded
unfolding on_fields
on_row mem cls r ch =
    let ks = kinds_at cls ch.cid in
    if length ks == 0 || mem (length ks * 8)
    then on_fields ch (dec_slots (dec_val mem cls (suc (length r.rest))) ks r)
    else refused no_memory ch.hops

unfoldable pub on_chain :
    Walk → Memory → List ClassDesc → ℕ → ℕ → Rbuf → ℕ → FoldError ⊎ Chain → Folded
unfolding on_delta on_row
on_chain next mem cls cur kind r hops (inl e) = refused e hops
on_chain next mem cls cur kind r hops (inr ch) =
    if kind == wal_delta
    then on_delta next mem cls cur r ch
    else if not (kind == wal_insert) && not (kind == wal_update)
    then refused tombstone ch.hops
    else on_row mem cls r ch

-- The body of the loop, on what the source of this hop gave.
unfoldable pub on_record :
    Walk → Memory → List ClassDesc → ℕ → Option Chain → Option (List ℕ) → Folded
unfolding on_chain identify hops_of
on_record next mem cls cur seen none = refused no_record (hops_of seen)
on_record next mem cls cur seen (some payload) =
    let (kind, r1) = rd_u8 (reader payload) in
    let (cid, r2) = rd_u32 r1 in
    let (id, r3) = rd_u64 r2 in
    if r3.bad || leb (length cls) cid
    then refused bad_header (hops_of seen)
    else on_chain next mem cls cur kind r3 (hops_of seen) (identify mem cls seen cid id)

-- The loop; every hop goes to a smaller offset.
unfoldable pub fold_loop : Memory → Wal → List ClassDesc → ℕ → ℕ → Option Chain → Folded
unfolding on_record
fold_loop mem w cls zero cur seen = exhausted
fold_loop mem w cls (suc fuel) cur seen =
    on_record (λ back ch. fold_loop mem w cls fuel back (some ch)) mem cls cur seen
      (record_at mem w cur)

unfoldable pub wal_fold_row_at : Memory → Wal → List ClassDesc → ℕ → Folded
wal_fold_row_at mem w cls off = fold_loop mem w cls (suc off) off none
