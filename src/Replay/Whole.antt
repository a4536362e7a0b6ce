-- ===== src/Replay/Whole.antt =====
-- The replay of a whole log (`wo_wal_replay_ex` of database/src/wal.c).
use writeonce.Common.{
  ℕ, zero, suc, ◌+◌, ◌≡◌, ◌≢◌, refl, ◌∙◌, sym, ap, subst, Bool, true, false, ◌&&◌, ◌||◌, Option,
  none, some, List, [], ◌∷◌, ◌++◌, length, leb, ltb, ◌==◌, if◌then◌else◌, eq→==, ne→==, ==→eq,
  ==→ne, Bool-cases, ◌⊎◌, inl, inr, All, arith,
}
use writeonce.Wire.{Memory, IsCapped, Rbuf, reader, rd_u8, rd_u32, rd_u64}
use writeonce.Wire.Integers.{IsByte}
use writeonce.Engine.{ClassDesc}
use writeonce.Engine.Sound.{rd_u8-Takes, rd_u32-Takes, rd_u64-Takes, rd_u32-good}
use writeonce.Wal.{wal_schema}
use writeonce.Log.{scan_record, past, record_loop, log_records}
use writeonce.Fold.Ends.{rd_u64-good}
use writeonce.Fold.{record_at, scan_record_staged}
use writeonce.Fold.Staged.{record_at-IsByte}
use writeonce.IdHash.Sound.{IsId}
use writeonce.Rows.{Indexing, Shard, RowTable}
use writeonce.Rows.Lookup.{IsTable, look}
use writeonce.Replay.{
  RecordResult, applied, corrupt, volatile_class, view, is_volatile, put_table, apply_record,
  is_counted, on_applied, replay_loop, wal_replay,
}
use writeonce.Replay.Created.{IsFrame, IsResult, IsRun}
use writeonce.Replay.Kinds.{IsNew, apply_kind-IsRun}

-- The header of a record, as it is read.
abbrev pub kind_in : List ℕ → ℕ
kind_in p = (rd_u8 (reader p)).0

abbrev pub class_in : List ℕ → ℕ
class_in p = (rd_u32 (rd_u8 (reader p)).1).0

abbrev pub id_in : List ℕ → ℕ
id_in p = (rd_u64 (rd_u32 (rd_u8 (reader p)).1).1).0

abbrev pub rest_of : List ℕ → Rbuf
rest_of p = (rd_u64 (rd_u32 (rd_u8 (reader p)).1).1).1

-- A record names an id that a row can have, unless it is a schema.
abbrev pub NamesRow : List ℕ → Type 0
NamesRow p = (kind_in p ≢ wal_schema) → IsId (id_in p)

-- A record of a file of bytes has bytes.
scan_record-IsByte :
    (mem : Memory) (file : List ℕ) (off : ℕ) (p : List ℕ)
    → All IsByte file
    → scan_record mem file off ≡ some p
    → All IsByte p
unfolding record_at
scan_record-IsByte mem file off p bytes e =
    record_at-IsByte mem (view file) off p bytes tt
      (unstaged (leb 0 off && ltb off (0 + 0)) (ground arith) ∙ e)
  where
    unstaged :
        (b : Bool)
        → b ≡ false
        → (if b then scan_record_staged mem (view file) off else scan_record mem file off)
          ≡ scan_record mem file off
    unstaged b e = rw e refl

module _ (ix : Indexing) (mem : Memory) (sh : Shard) (cls : List ClassDesc) (file : List ℕ)
    (rt : Bool) where
  abbrev pub Db : Type 0
  Db = ℕ → RowTable (Indexing.Index ix)

  abbrev pub IsDb : Db → Type 0
  IsDb db = (c : ℕ) → IsTable ix (db c)

  -- What a record that was applied has done: a schema nothing; another has changed the row of its id in
  -- the table of its class, and nothing else.
  abbrev pub IsStep : List ℕ → Db → Db → Type 0
  IsStep p db db' =
      ((kind_in p ≡ wal_schema) × (db' ≡ db))
      ⊎ (IsNew ix mem sh cls file rt (db (class_in p)) (class_in p) (id_in p) (rest_of p)
            (kind_in p) (look ix (db' (class_in p)) (id_in p)) (db' (class_in p)).next_id
          × IsFrame ix (id_in p) (db (class_in p)) (db' (class_in p))
          × ((c : ℕ) → c ≢ class_in p → db' c ≡ db c))

  -- The records one after the other.
  abbrev pub IsHistory : List (List ℕ) → Db → Db → Type 0
  IsHistory [] db db' = db' ≡ db
  IsHistory (p ∷ ps) db db' = (db1 : Db) × IsStep p db db1 × IsHistory ps db1 db'

  -- What a record has done, by its result: one that fails may have changed the row of its id only, and
  -- one of a volatile class nothing.
  abbrev pub IsOutcome : List ℕ → Db → RecordResult → Db → Type 0
  IsOutcome p db applied db' = IsStep p db db'
  IsOutcome p db corrupt db' =
      IsFrame ix (id_in p) (db (class_in p)) (db' (class_in p))
      × ((c : ℕ) → c ≢ class_in p → db' c ≡ db c)
  IsOutcome p db volatile_class db' =
      (kind_in p ≢ wal_schema) × (is_volatile cls (class_in p) ≡ true) × (db' ≡ db)

  abbrev IsEnd : List ℕ → Db → Option (RecordResult × Db) → Type 0
  IsEnd p db out =
      (rc : RecordResult) × (db' : Db) × (out ≡ some (rc, db')) × IsDb db' × IsOutcome p db rc db'

  if-IsEnd :
      (p : List ℕ) (db : Db) (b : Bool) (x y : Option (RecordResult × Db))
      → (b ≡ true → IsEnd p db x)
      → (b ≡ false → IsEnd p db y)
      → IsEnd p db (if b then x else y)
  if-IsEnd p db true x y f g = f refl
  if-IsEnd p db false x y f g = g refl

  -- The table of the class takes the place of the old one.
  put_table-IsEnd :
      (p : List ℕ) (db : Db)
      → IsDb db
      → (out : Option (RecordResult × RowTable (Indexing.Index ix)))
      → IsRun ix
          (db (class_in p))
          (id_in p)
          (IsNew ix mem sh cls file rt
            (db (class_in p))
            (class_in p)
            (id_in p)
            (rest_of p)
            (kind_in p))
          out
      → IsEnd p db (put_table ix mem sh cls file rt db (class_in p) out)
  put_table-IsEnd p db h out (rc, t, run, is_table, result) =
      subst (λ o. IsEnd p db (put_table ix mem sh cls file rt db (class_in p) o)) (sym run)
        (rc, db', refl, sound, by_result rc result)
    where
      db' : Db
      db' = λ c. if c == class_in p then t else db c

      here : db' (class_in p) ≡ t
      here =
          ap (λ (b : Bool). if b then t else db (class_in p)) (eq→== (class_in p) (class_in p) refl)

      elsewhere : (c : ℕ) → c ≢ class_in p → db' c ≡ db c
      elsewhere c other = ap (λ (b : Bool). if b then t else db c) (ne→== c (class_in p) other)

      sound : IsDb db'
      sound c = elim (Bool-cases (c == class_in p)) [
        | inl same ↦ rw same is_table
        | inr other ↦ rw other (h c)
      ]

      by_result :
          (rc : RecordResult)
          → IsResult ix
              (db (class_in p))
              (id_in p)
              (IsNew ix mem sh cls file rt
                (db (class_in p))
                (class_in p)
                (id_in p)
                (rest_of p)
                (kind_in p))
              rc
              t
          → IsOutcome p db rc db'
      by_result corrupt frame =
          (subst (IsFrame ix (id_in p) (db (class_in p))) (sym here) frame, elsewhere)
      by_result volatile_class r = elim r [ ]
      by_result applied (is_new, frame) = inr (
        subst
            (λ x.
              IsNew ix mem sh cls file rt (db (class_in p)) (class_in p) (id_in p) (rest_of p)
                (kind_in p) (look ix x (id_in p)) x.next_id)
            (sym here) is_new,
        subst (IsFrame ix (id_in p) (db (class_in p))) (sym here) frame,
        elsewhere,
      )

  -- The records that count.
  abbrev pub counted : List (List ℕ) → ℕ → ℕ
  counted [] n = n
  counted (p ∷ ps) n = counted ps (if is_counted ix mem sh cls file rt p then n + 1 else n)

  -- All records are in the tables, in their order, and are counted; or there is an error at one of them,
  -- and those before it are in the tables.
  abbrev pub IsReplayed : List (List ℕ) → ℕ → Db → RecordResult ⊎ ℕ → Db → Type 0
  IsReplayed ps n db (inr m) db' = (m ≡ counted ps n) × IsHistory ps db db'
  IsReplayed ps n db (inl rc) db' =
      (rc ≢ applied)
      × ((before : List (List ℕ)) × (p : List ℕ) × (rest : List (List ℕ)) × (db1 : Db) × (ps
            ≡ before ++ (p ∷ rest))
          × IsHistory before db db1
          × IsOutcome p db1 rc db')

  module _ (file_bytes : All IsByte file) (capped : IsCapped mem) where
    apply_record-IsEnd :
        (p : List ℕ) (db : Db)
        → IsDb db
        → All IsByte p
        → NamesRow p
        → IsEnd p db (apply_record ix mem sh cls file rt db p)
    unfolding apply_record
    apply_record-IsEnd p db h bytes names =
        if-IsEnd p db (kind_in p == wal_schema) _ _
          (λ e. (applied, db, refl, h, inl (==→eq (kind_in p) wal_schema e, refl)))
          (λ e.
            if-IsEnd p db ((rest_of p).bad || leb (length cls) (class_in p)) _ _
              (λ b. (corrupt, db, refl, h, ((λ k live other. refl), λ c other. refl)))
              (λ good.
                if-IsEnd p db (is_volatile cls (class_in p)) _ _
                  (λ v. (volatile_class, db, refl, h, (==→ne (kind_in p) wal_schema e, v, refl)))
                  (λ v. put_table-IsEnd p db h _ (
                    apply_kind-IsRun ix mem sh cls file rt (db (class_in p)) (class_in p) (id_in p)
                      (rest_of p) (names (==→ne (kind_in p) wal_schema e)) (h (class_in p)) capped
                      (left_bytes good) file_bytes (kind_in p)))))
      where
        left_bytes :
            ((rest_of p).bad || leb (length cls) (class_in p)) ≡ false → All IsByte (rest_of p).rest
        left_bytes good =
            let r1 = (rd_u8 (reader p)).1 in
            let r2 = (rd_u32 r1).1 in
            let fine3 : (rest_of p).bad ≡ false = ground (arith, good) in
            let fine2 = rd_u64-good r2 fine3 in
            let t1 = rd_u8-Takes (reader p) bytes (rd_u32-good r1 fine2) in
            let t2 = rd_u32-Takes r1 t1.bytes_left fine2 in
            (rd_u64-Takes r2 t2.bytes_left fine3).bytes_left

    replay_loop-IsReplayed :
        (fuel off n : ℕ) (db : Db)
        → IsDb db
        → All NamesRow (record_loop mem fuel file off)
        → (r : RecordResult ⊎ ℕ) × (db' : Db) × (replay_loop ix mem sh cls file rt fuel off n db
            ≡ some (r, db'))
          × IsDb db'
          × IsReplayed (record_loop mem fuel file off) n db r db'
    unfolding replay_loop record_loop
    replay_loop-IsReplayed zero off n db h names = (inr n, db, refl, h, (refl, refl))
    replay_loop-IsReplayed (suc fuel) off n db h names =
        elim (scan-cases (scan_record mem file off)) [
          | inl none_there ↦
              rw (none_there, replay_loop, record_loop) (inr n, db, refl, h, (refl, refl))
          | inr (p, there) ↦
              let m = if is_counted ix mem sh cls file rt p then n + 1 else n in
              let names' : All NamesRow (p ∷ record_loop mem fuel file (past off p)) =
                subst (λ o. All NamesRow (records_of o)) there names in
              let (rc, db', run, sound, is) =
                apply_record-IsEnd p db h (scan_record-IsByte mem file off p file_bytes there)
                  names'.0 in
              rw (there, replay_loop, record_loop, run)
                (by_outcome p rc db' sound is
                  (replay_loop-IsReplayed fuel (past off p) m db' sound names'.1))
        ]
      where
        scan-cases : (o : Option (List ℕ)) → (o ≡ none) ⊎ ((p : List ℕ) × (o ≡ some p))
        scan-cases none = inl refl
        scan-cases (some p) = inr (p, refl)

        records_of : Option (List ℕ) → List (List ℕ)
        records_of o = elim o [ none ↦ [] | some p ↦ p ∷ record_loop mem fuel file (past off p) ]

        by_outcome :
            (p : List ℕ) (rc : RecordResult) (db' : Db)
            → IsDb db'
            → IsOutcome p db rc db'
            → ((r : RecordResult ⊎ ℕ) × (db'' : Db) × (replay_loop ix mem sh cls file rt fuel
                    (past off p)
                    (if is_counted ix mem sh cls file rt p then n + 1 else n)
                    db'
                  ≡ some (r, db''))
                × IsDb db''
                × IsReplayed
                    (record_loop mem fuel file (past off p))
                    (if is_counted ix mem sh cls file rt p then n + 1 else n)
                    db'
                    r
                    db'')
            → (r : RecordResult ⊎ ℕ) × (db'' : Db) × (on_applied ix mem sh cls file rt
                  (replay_loop ix mem sh cls file rt fuel
                    (past off p)
                    (if is_counted ix mem sh cls file rt p then n + 1 else n))
                  (some (rc, db'))
                ≡ some (r, db''))
              × IsDb db''
              × IsReplayed (p ∷ record_loop mem fuel file (past off p)) n db r db''
        by_outcome p corrupt db' sound is rest = (
          inl corrupt,
          db',
          refl,
          sound,
          ((λ e. differ e), ([], p, record_loop mem fuel file (past off p), db, refl, refl, is)),
        )
          where
            differ : corrupt ≡ applied → ⊥
            differ e = cc
        by_outcome p volatile_class db' sound is rest = (
          inl volatile_class,
          db',
          refl,
          sound,
          ((λ e. differ e), ([], p, record_loop mem fuel file (past off p), db, refl, refl, is)),
        )
          where
            differ : volatile_class ≡ applied → ⊥
            differ e = cc
        by_outcome p applied db' sound is (inr m, db'', run, sound', (count, history)) =
            (inr m, db'', run, sound', (count, (db', is, history)))
        by_outcome p applied db' sound is
              (inl e, db'', run, sound', (bad, (before, q, rest, db1, split, history, out))) =
            (
              inl e,
              db'',
              run,
              sound',
              (bad, (p ∷ before, q, rest, db1, ap (λ l. p ∷ l) split, (db', is, history), out)),
            )

-- With an allocator that grants less than 2^29 bytes at once: on a log of any bytes, torn or corrupt,
-- whose records name ids that a row can have, and on resident tables with the invariant, the replay
-- ends with the invariant in every table. Either all records of the intact prefix are applied in
-- their order, each with its effect on the row of its id and on the next id and on no other row, and
-- the number of those that are no schema is given. Or it stops at a record with an error: those
-- before it are applied in their order, and it changes no row but that of its id, and nothing at all
-- if it is refused for a volatile class.
pub wal_replay-IsReplayed :
    (ix : Indexing) (mem : Memory) (sh : Shard) (cls : List ClassDesc) (file : List ℕ) (rt : Bool)
    → IsCapped mem
    → (file_bytes : All IsByte file) → (db : ℕ → RowTable (Indexing.Index ix))
    → IsDb ix mem sh cls file rt db
    → All NamesRow (log_records mem file)
    → (r : RecordResult ⊎ ℕ) × (db' : ℕ → RowTable (Indexing.Index ix)) × (wal_replay ix mem sh cls
          file rt db
        ≡ some (r, db'))
      × IsDb ix mem sh cls file rt db'
      × IsReplayed ix mem sh cls file rt (log_records mem file) 0 db r db'
unfolding wal_replay log_records
wal_replay-IsReplayed ix mem sh cls file rt capped file_bytes db h names =
    replay_loop-IsReplayed ix mem sh cls file rt file_bytes capped (length file) 0 0 db h names
