-- ===== src/Fold/History.antt =====
-- The fold of a row (`wo_wal_fold_row_at` of database/src/wal.c) against the history of the row: its
-- deltas applied in the order in which they were logged.
use writeonce.Common.{
  ℕ, zero, suc, ◌+◌, ◌*◌, ◌^◌, ◌<◌, ◌≡◌, refl, ◌∙◌, ap, ap₂, true, false, not, ◌||◌, ◌&&◌, ◌⊎◌,
  Option, none, some, List, [], ◌∷◌, ◌++◌, append-nil, length, replicate, get_or, ◌==◌, eq→==,
  lt→leb, inl, inr, arith,
}
use writeonce.Wire.{Memory, reader}
use writeonce.Wire.Reading.{rd_u8-append, rd_u32-append, rd_u64-append}
use writeonce.Engine.{scalar, Value, Values, done, slot, ClassDesc, kinds_at}
use writeonce.Engine.Encoding.{u8, u32, u64, encoding, slots_encoding}
use writeonce.Engine.Fits.{Fits, FitSlots}
use writeonce.Engine.RoundTrip.{dec_val-encoding, dec_slots-encoding}
use writeonce.Wal.{Wal, wal_insert, wal_update, wal_delta}
use writeonce.Fold.{
  row, Chain, identify, claim, overlay, Walk, on_value, on_delta, on_fields, on_row, on_chain,
  on_record, fold_loop, wal_fold_row_at, record_at,
}

-- A new value for one field of a row.
abbrev pub set_field : ℕ → Value → Values → Values
set_field i v done = done
set_field zero v (slot old vs) = slot v vs
set_field (suc i) v (slot old vs) = slot old (set_field i v vs)

overlay-claim :
    (i : ℕ) (v : Value) (rs : List (Option Value)) (vs : Values)
    → i < length rs
    → overlay (claim i v rs) vs ≡ overlay rs (set_field i v vs)
unfolding overlay claim
overlay-claim i v [] vs h = absurd (omega arith)
overlay-claim zero v (none ∷ rs) done h = refl
overlay-claim zero v (some newer ∷ rs) done h = refl
overlay-claim (suc i) v (none ∷ rs) done h = refl
overlay-claim (suc i) v (some newer ∷ rs) done h = refl
overlay-claim zero v (none ∷ rs) (slot old vs) h = refl
overlay-claim zero v (some newer ∷ rs) (slot old vs) h = refl
overlay-claim (suc i) v (none ∷ rs) (slot old vs) h =
    ap (slot old) (overlay-claim i v rs vs (omega arith))
overlay-claim (suc i) v (some newer ∷ rs) (slot old vs) h =
    ap (slot newer) (overlay-claim i v rs vs (omega arith))

length-claim : (i : ℕ) (v : Value) (rs : List (Option Value)) → length (claim i v rs) ≡ length rs
unfolding claim
length-claim i v [] = refl
length-claim zero v (none ∷ rs) = refl
length-claim zero v (some newer ∷ rs) = refl
length-claim (suc i) v (r ∷ rs) = ap suc (length-claim i v rs)

overlay-none : (n : ℕ) (vs : Values) → overlay (replicate n none) vs ≡ vs
unfolding overlay
overlay-none zero vs = refl
overlay-none (suc n) done = refl
overlay-none (suc n) (slot v vs) = ap (slot v) (overlay-none n vs)

length-replicate : (n : ℕ) → length {A = Option Value} (replicate n none) ≡ n
length-replicate zero = refl
length-replicate (suc n) = ap suc (length-replicate n)

module _ (cls : List ClassDesc) where
  -- The payload of a whole row, as `wo_wal_append_insert` and `wo_wal_append_update` lay it out.
  abbrev pub row_payload : ℕ → ℕ → ℕ → Values → List ℕ
  row_payload kind cid id vs =
      u8 kind ++ (u32 cid ++ (u64 id ++ slots_encoding cls (kinds_at cls cid) vs))

  -- The payload of one field's new value, as `wo_wal_append_delta` lays it out.
  abbrev pub delta_payload : ℕ → ℕ → ℕ → ℕ → Value → List ℕ
  delta_payload cid id field back v =
      u8 wal_delta
      ++ (u32 cid
          ++ (u64 id
              ++ (u32 field
                  ++ (u64 back ++ encoding cls (get_or (kinds_at cls cid) field scalar) v))))

  -- The record at an offset ends a history of the row `cid`, `id`: a whole row with these values,
  -- or the change of one field, whose history ends at a smaller offset. The last index counts the
  -- changes.
  pub data History (mem : Memory) (w : Wal) (cid id : ℕ) : ℕ → Values → ℕ → Type 0 where
    logged_row :
        {off kind : ℕ} {vs : Values}
        → (kind ≡ wal_insert) ⊎ (kind ≡ wal_update)
        → FitSlots cls (kinds_at cls cid) vs
        → record_at mem w off ≡ some (row_payload kind cid id vs)
        → History mem w cid id off vs 0
    changed_field :
        {off back field hops : ℕ} {v : Value} {vs : Values}
        → History mem w cid id back vs hops
        → back < off
        → field < length (kinds_at cls cid)
        → back < 2 ^ 64
        → field < 2 ^ 32
        → Fits cls (get_or (kinds_at cls cid) field scalar) v
        → record_at mem w off ≡ some (delta_payload cid id field back v)
        → History mem w cid id off (set_field field v vs) (suc hops)

  module _ (mem : Memory) (all : (n : ℕ) → mem n ≡ true) (cid id : ℕ) (narrow : cid < 2 ^ 32)
      (known : cid < length cls) (wide : id < 2 ^ 64) where
    -- What the walk has found of this row.
    abbrev at_row : List (Option Value) → ℕ → Chain
    at_row rs n = record { cid = cid; id = id; resolved = rs; hops = n }

    on_row-payload :
        (vs : Values) (rs : List (Option Value)) (n : ℕ)
        → FitSlots cls (kinds_at cls cid) vs
        → on_row mem cls (reader (slots_encoding cls (kinds_at cls cid) vs)) (at_row rs n)
          ≡ row cid id (overlay rs vs) n
    unfolding on_row on_fields
    on_row-payload vs rs n fits =
        let bytes = slots_encoding cls (kinds_at cls cid) vs in
        let read =
          dec_slots-encoding mem all cls (kinds_at cls cid) vs [] (suc (length bytes)) fits
            (omega arith) in
        let granted : (length (kinds_at cls cid) == 0 || mem (length (kinds_at cls cid) * 8))
            ≡ true =
          ground (arith, all (length (kinds_at cls cid) * 8)) in
        rw (granted, rw (append-nil bytes) at read) refl

    on_record-row :
        (next : Walk) (cur kind : ℕ) (vs : Values) (seen : Option Chain) (rs : List (Option Value))
        (n : ℕ)
        → (kind ≡ wal_insert) ⊎ (kind ≡ wal_update)
        → FitSlots cls (kinds_at cls cid) vs
        → identify mem cls seen cid id ≡ inr (at_row rs n)
        → on_record next mem cls cur seen (some (row_payload kind cid id vs))
          ≡ row cid id (overlay rs vs) n
    unfolding on_record on_chain
    on_record-row next cur kind vs seen rs n which fits here =
        let is_row : (not (kind == wal_insert) && not (kind == wal_update)) ≡ false = elim which [
          | inl e ↦ rw e refl
          | inr e ↦ rw e refl
        ] in
        let is_delta : (kind == wal_delta) ≡ false = elim which [
          | inl e ↦ rw e refl
          | inr e ↦ rw e refl
        ] in
        let small : kind < 2 ^ 8 = elim which [ inl e ↦ omega arith | inr e ↦ omega arith ] in
        let bytes = slots_encoding cls (kinds_at cls cid) vs in
        rw
          (
            rd_u8-append kind (u32 cid ++ (u64 id ++ bytes)) small,
            rd_u32-append cid (u64 id ++ bytes) narrow,
            rd_u64-append id bytes wide,
            lt→leb cid (length cls) known,
            here,
            is_delta,
            is_row,
          )
          (on_row-payload vs rs n fits)

    on_record-delta :
        (next : Walk) (cur field back : ℕ) (v : Value) (seen : Option Chain)
        (rs : List (Option Value)) (n : ℕ)
        → back < cur
        → field < length (kinds_at cls cid)
        → back < 2 ^ 64
        → field < 2 ^ 32
        → Fits cls (get_or (kinds_at cls cid) field scalar) v
        → identify mem cls seen cid id ≡ inr (at_row rs n)
        → on_record next mem cls cur seen (some (delta_payload cid id field back v))
          ≡ next back (at_row (claim field v rs) (n + 1))
    unfolding on_record on_chain on_delta on_value
    on_record-delta next cur field back v seen rs n lt inside b64 f32 fits here =
        let k = get_or (kinds_at cls cid) field scalar in
        let bytes = encoding cls k v in
        let read = dec_val-encoding mem all cls k v [] (suc (length bytes)) fits (omega arith) in
        rw
          (
            rd_u8-append wal_delta (u32 cid ++ (u64 id ++ (u32 field ++ (u64 back ++ bytes))))
                (omega arith),
            rd_u32-append cid (u64 id ++ (u32 field ++ (u64 back ++ bytes))) narrow,
            rd_u64-append id (u32 field ++ (u64 back ++ bytes)) wide,
            lt→leb cid (length cls) known,
            here,
            rd_u32-append field (u64 back ++ bytes) f32,
            rd_u64-append back bytes b64,
            lt→leb field (length (kinds_at cls cid)) inside,
            lt→leb back cur lt,
            rw (append-nil bytes) at read,
          )
          refl

    identify-again :
        (rs : List (Option Value)) (n : ℕ)
        → identify mem cls (some (at_row rs n)) cid id ≡ inr (at_row rs n)
    unfolding identify
    identify-again rs n = rw (eq→== cid cid refl, eq→== id id refl) refl

    identify-first :
        identify mem cls none cid id ≡ inr (at_row (replicate (length (kinds_at cls cid)) none) 0)
    unfolding identify
    identify-first =
        let field_cnt = length (kinds_at cls cid) in
        let granted : (field_cnt == 0 || (mem field_cnt && mem (field_cnt * 8))) ≡ true =
          ground (arith, all field_cnt, all (field_cnt * 8)) in
        rw granted refl

    module _ (w : Wal) where
      fold_loop-History :
          {off hops : ℕ} {vs : Values}
          → History mem w cid id off vs hops
          → (fuel : ℕ) (seen : Option Chain) (rs : List (Option Value)) (n : ℕ) → off < fuel
          → length rs ≡ length (kinds_at cls cid)
          → identify mem cls seen cid id ≡ inr (at_row rs n)
          → fold_loop mem w cls fuel off seen ≡ row cid id (overlay rs vs) (n + hops)
      unfolding fold_loop
      fold_loop-History h zero seen rs n lt size here = absurd (omega arith)
      fold_loop-History {off} {hops} {vs} (logged_row {kind = kind} which fits stored) (suc fuel)
            seen rs n lt size here =
          let first : n + 0 ≡ n = omega arith in
          rw (stored, first)
            (on_record-row (λ back ch. fold_loop mem w cls fuel back (some ch)) off kind vs seen rs
              n which fits here)
      fold_loop-History {off}
            (changed_field {back = back} {field = field} {hops = hops} {v = v} {vs = vs} older
              earlier inside b64 f32 fits stored)
            (suc fuel) seen rs n lt size here =
          let claimed = claim field v rs in
          let one_more : n + 1 + hops ≡ n + suc hops = omega arith in
          ap (on_record (λ back ch. fold_loop mem w cls fuel back (some ch)) mem cls off seen)
            stored
          ∙ on_record-delta (λ back ch. fold_loop mem w cls fuel back (some ch)) off field back v
              seen rs n earlier inside b64 f32 fits here
          ∙ fold_loop-History older fuel (some (at_row claimed (n + 1))) claimed (n + 1)
              (omega arith) (length-claim field v rs ∙ size) (identify-again claimed (n + 1))
          ∙ ap₂ (row cid id) (overlay-claim field v rs vs (omega arith)) one_more

-- With memory for every request: the fold of a row from its newest record, in the file or in the
-- batch, is the row with its deltas applied from the oldest to the newest, and counts the deltas.
pub wal_fold_row_at-History :
    (mem : Memory)
    → ((n : ℕ) → mem n ≡ true)
    → (cls : List ClassDesc) (w : Wal) (cid id off hops : ℕ) (vs : Values) → cid < 2 ^ 32
    → cid < length cls
    → id < 2 ^ 64
    → History cls mem w cid id off vs hops
    → wal_fold_row_at mem w cls off ≡ row cid id vs hops
unfolding wal_fold_row_at
wal_fold_row_at-History mem all cls w cid id off hops vs narrow known wide h =
    let field_cnt = length (kinds_at cls cid) in
    fold_loop-History cls mem all cid id narrow known wide w h (suc off) none
      (replicate field_cnt none) 0 (omega arith) (length-replicate field_cnt)
      (identify-first cls mem all cid id narrow known wide)
    ∙ ap₂ (row cid id) (overlay-none field_cnt vs) (omega arith)
