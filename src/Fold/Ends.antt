-- ===== src/Fold/Ends.antt =====
-- Every call of `wo_wal_fold_row_at` (database/src/wal.c) ends, on any bytes.
use writeonce.Common.{
  ℕ, zero, suc, ◌*◌, ◌<◌, ◌≡◌, refl, Bool, true, false, not, ◌||◌, ◌&&◌, Option, none, some, List,
  [], ◌∷◌, ◌⊎◌, length, replicate, get_or, All, leb, ◌==◌, if◌then◌else◌, inl, inr, arith,
}
use writeonce.Wire.{Memory, Rbuf, reader, rd_u8, rd_u32, rd_u64}
use writeonce.Wire.Integers.{IsByte}
use writeonce.Engine.{Kind, scalar, Value, Values, ClassDesc, kinds_at, Read, ok, bad_input, stuck}
use writeonce.Engine.Fits.{Fits, FitSlots, slots_done, slots_more}
use writeonce.Engine.Sound.{Sound, rd_u8-Takes, rd_u32-Takes, rd_u64-Takes, rd_u32-good}
use writeonce.Engine.Decoding.{dec_val-Sound, dec_row-Sound}
use writeonce.Wal.{Wal, wal_insert, wal_update, wal_delta}
use writeonce.Fold.{
  FoldError, no_memory, other_row, Folded, row, refused, exhausted, Chain, identify, claim, overlay,
  Walk, on_value, on_delta, on_fields, on_row, on_chain, on_record, fold_loop, wal_fold_row_at,
  record_at, hops_of,
}
use writeonce.Fold.Staged.{record_at-IsByte}

pub rd_u64-good : (r : Rbuf) → (rd_u64 r).1.bad ≡ false → r.bad ≡ false
unfolding rd_u64
rd_u64-good r h = ground arith

module _ (cls : List ClassDesc) where
  -- Values claimed for the fields of these kinds.
  abbrev Claims : List Kind → List (Option Value) → Type 0
  Claims [] [] = Unit
  Claims (k ∷ ks) (none ∷ rs) = Claims ks rs
  Claims (k ∷ ks) (some v ∷ rs) = Fits cls k v × Claims ks rs
  Claims _ _ = ⊥

  Claims-none : (ks : List Kind) → Claims ks (replicate (length ks) none)
  Claims-none [] = tt
  Claims-none (k ∷ ks) = Claims-none ks

  Claims-claim :
      (ks : List Kind) (rs : List (Option Value)) (i : ℕ) (v : Value)
      → i < length ks
      → Fits cls (get_or ks i scalar) v
      → Claims ks rs
      → Claims ks (claim i v rs)
  unfolding claim
  Claims-claim [] [] i v h f c = tt
  Claims-claim [] (r ∷ rs) i v h f c = elim c [ ]
  Claims-claim (k ∷ ks) [] i v h f c = elim c [ ]
  Claims-claim (k ∷ ks) (none ∷ rs) zero v h f c = (f, c)
  Claims-claim (k ∷ ks) (some newer ∷ rs) zero v h f c = c
  Claims-claim (k ∷ ks) (none ∷ rs) (suc i) v h f c = Claims-claim ks rs i v (omega arith) f c
  Claims-claim (k ∷ ks) (some newer ∷ rs) (suc i) v h f c =
      (c.0, Claims-claim ks rs i v (omega arith) f c.1)

  Claims-overlay :
      {ks : List Kind} {vs : Values}
      → FitSlots cls ks vs
      → (rs : List (Option Value)) → Claims ks rs
      → FitSlots cls ks (overlay rs vs)
  unfolding overlay
  Claims-overlay slots_done [] c = slots_done
  Claims-overlay slots_done (r ∷ rs) c = elim c [ ]
  Claims-overlay (slots_more f fs) [] c = elim c [ ]
  Claims-overlay (slots_more f fs) (none ∷ rs) c = slots_more f (Claims-overlay fs rs c)
  Claims-overlay (slots_more f fs) (some v ∷ rs) c = slots_more c.0 (Claims-overlay fs rs c.1)

  record Known (ch : Chain) : Type 0 where
    class_known : ch.cid < length cls
    claimed : Claims (kinds_at cls ch.cid) ch.resolved

  abbrev KnownOr : FoldError ⊎ Chain → Type 0
  KnownOr (inl e) = Unit
  KnownOr (inr ch) = Known ch

  KnownOr-if :
      (b : Bool) (x y : FoldError ⊎ Chain) → KnownOr x → KnownOr y → KnownOr (if b then x else y)
  KnownOr-if true x y f g = f
  KnownOr-if false x y f g = g

  abbrev KnownIf : Option Chain → Type 0
  KnownIf none = Unit
  KnownIf (some ch) = Known ch

  identify-KnownOr :
      (mem : Memory) (seen : Option Chain) (cid id : ℕ)
      → cid < length cls
      → KnownIf seen
      → KnownOr (identify mem cls seen cid id)
  unfolding identify
  identify-KnownOr mem none cid id h known =
      let field_cnt = length (kinds_at cls cid) in
      let start : Chain = record {
        cid = cid;
        id = id;
        resolved = replicate field_cnt none;
        hops = 0;
      } in
      KnownOr-if (field_cnt == 0 || (mem field_cnt && mem (field_cnt * 8))) (inr start)
        (inl no_memory) (record { class_known = h; claimed = Claims-none (kinds_at cls cid) }) tt
  identify-KnownOr mem (some ch) cid id h known =
      KnownOr-if (cid == ch.cid && id == ch.id) (inr ch) (inl other_row) known tt

  -- A row of a known class with a fitting value for each of its fields, or an error. Never
  -- `exhausted`.
  abbrev pub FoldSound : Folded → Type 0
  FoldSound (row cid id vs hops) = (cid < length cls) × FitSlots cls (kinds_at cls cid) vs
  FoldSound (refused e hops) = Unit
  FoldSound exhausted = ⊥

  FoldSound-if :
      (b : Bool) (x y : Folded)
      → (b ≡ true → FoldSound x)
      → (b ≡ false → FoldSound y)
      → FoldSound (if b then x else y)
  FoldSound-if true x y f g = f refl
  FoldSound-if false x y f g = g refl

  on_fields-FoldSound :
      (ch : Chain) (r : Rbuf) (x : Read (Values × Rbuf))
      → Known ch
      → Sound (FitSlots cls (kinds_at cls ch.cid)) r x
      → FoldSound (on_fields ch x)
  unfolding on_fields
  on_fields-FoldSound ch r (ok (vs, r1)) known s =
      FoldSound-if (length r1.rest == 0) _ _
        (λ _. (known.class_known, Claims-overlay s.0 ch.resolved known.claimed)) (λ _. tt)
  on_fields-FoldSound ch r bad_input known s = tt
  on_fields-FoldSound ch r stuck known s = s

  module _ (mem : Memory) where
    on_row-FoldSound :
        (r : Rbuf) (ch : Chain) → All IsByte r.rest → Known ch → FoldSound (on_row mem cls r ch)
    unfolding on_row
    on_row-FoldSound r ch h known =
        let ks = kinds_at cls ch.cid in
        FoldSound-if (length ks == 0 || mem (length ks * 8)) _ _
          (λ _.
            on_fields-FoldSound ch r _ known
              (dec_row-Sound mem cls (suc (length r.rest)) ks r h (omega arith)))
          (λ _. tt)

    -- The rest of the walk below an offset.
    module _ (next : Walk) (cur : ℕ)
        (below : (back : ℕ) (ch : Chain) → back < cur → Known ch → FoldSound (next back ch)) where
      on_value-FoldSound :
          (back field : ℕ) (ch : Chain) (r : Rbuf) (x : Read (Value × Rbuf))
          → back < cur
          → field < length (kinds_at cls ch.cid)
          → Known ch
          → Sound (Fits cls (get_or (kinds_at cls ch.cid) field scalar)) r x
          → FoldSound (on_value next back field ch x)
      unfolding on_value
      on_value-FoldSound back field ch r (ok (v, r1)) lt inside known s =
          FoldSound-if (not (length r1.rest == 0)) _ _ (λ _. tt)
            λ _. below back _ lt (record {
              class_known = known.class_known;
              claimed =
                  Claims-claim (kinds_at cls ch.cid) ch.resolved field v inside s.0 known.claimed;
            })
      on_value-FoldSound back field ch r bad_input lt inside known s = tt
      on_value-FoldSound back field ch r stuck lt inside known s = s

      on_delta-FoldSound :
          (r : Rbuf) (ch : Chain)
          → All IsByte r.rest
          → Known ch
          → FoldSound (on_delta next mem cls cur r ch)
      unfolding on_delta
      on_delta-FoldSound r ch h known =
          let (field, r1) = rd_u32 r in
          let (back, r2) = rd_u64 r1 in
          let ks = kinds_at cls ch.cid in
          FoldSound-if (r2.bad || leb (length ks) field) _ _ (λ _. tt)
            λ good.
              FoldSound-if (leb cur back) _ _ (λ _. tt)
                λ earlier.
                  let fine : r2.bad ≡ false = ground arith in
                  let t1 = rd_u32-Takes r h (rd_u64-good r1 fine) in
                  let t2 = rd_u64-Takes r1 t1.bytes_left fine in
                  on_value-FoldSound back field ch r2 _ (ground arith) (ground arith) known (
                    dec_val-Sound mem cls (suc (length r2.rest)) (get_or ks field scalar) r2
                      t2.bytes_left (omega arith))

      on_chain-FoldSound :
          (kind hops : ℕ) (r : Rbuf) (x : FoldError ⊎ Chain)
          → All IsByte r.rest
          → KnownOr x
          → FoldSound (on_chain next mem cls cur kind r hops x)
      unfolding on_chain
      on_chain-FoldSound kind hops r (inl e) h known = tt
      on_chain-FoldSound kind hops r (inr ch) h known =
          FoldSound-if (kind == wal_delta) _ _ (λ _. on_delta-FoldSound r ch h known)
            λ _.
              FoldSound-if (not (kind == wal_insert) && not (kind == wal_update)) _ _ (λ _. tt)
                λ _. on_row-FoldSound r ch h known

      on_record-FoldSound :
          (seen : Option Chain) (found : Option (List ℕ))
          → KnownIf seen
          → ((p : List ℕ) → found ≡ some p → All IsByte p)
          → FoldSound (on_record next mem cls cur seen found)
      unfolding on_record
      on_record-FoldSound seen none known bytes = tt
      on_record-FoldSound seen (some p) known bytes =
          let (kind, r1) = rd_u8 (reader p) in
          let (cid, r2) = rd_u32 r1 in
          let (id, r3) = rd_u64 r2 in
          FoldSound-if (r3.bad || leb (length cls) cid) _ _ (λ _. tt)
            λ good.
              let fine3 : r3.bad ≡ false = ground arith in
              let fine2 = rd_u64-good r2 fine3 in
              let t1 = rd_u8-Takes (reader p) (bytes p refl) (rd_u32-good r1 fine2) in
              let t2 = rd_u32-Takes r1 t1.bytes_left fine2 in
              let t3 = rd_u64-Takes r2 t2.bytes_left fine3 in
              on_chain-FoldSound kind (hops_of seen) r3 (identify mem cls seen cid id) t3.bytes_left
                (identify-KnownOr mem seen cid id (ground arith) known)

    module _ (w : Wal) (file_bytes : All IsByte w.file) (buf_bytes : All IsByte w.buf) where
      fold_loop-FoldSound :
          (fuel cur : ℕ) (seen : Option Chain)
          → cur < fuel
          → KnownIf seen
          → FoldSound (fold_loop mem w cls fuel cur seen)
      unfolding fold_loop
      fold_loop-FoldSound zero cur seen h known = absurd (omega arith)
      fold_loop-FoldSound (suc fuel) cur seen h known =
          on_record-FoldSound (λ back ch. fold_loop mem w cls fuel back (some ch)) cur
            (λ back ch lt k. fold_loop-FoldSound fuel back (some ch) (omega arith) k) seen
            (record_at mem w cur) known λ p e. record_at-IsByte mem w cur p file_bytes buf_bytes e

-- From any offset, in a log and a batch of any bytes, with any allocator: the walk ends, and what it
-- gives is an error, or a row of a class in the table with a value for each of its fields that the
-- class allows.
pub wal_fold_row_at-FoldSound :
    (cls : List ClassDesc) (mem : Memory) (w : Wal) (off : ℕ)
    → All IsByte w.file
    → All IsByte w.buf
    → FoldSound cls (wal_fold_row_at mem w cls off)
unfolding wal_fold_row_at
wal_fold_row_at-FoldSound cls mem w off hf hb =
    fold_loop-FoldSound cls mem w hf hb (suc off) off none (omega arith) tt
