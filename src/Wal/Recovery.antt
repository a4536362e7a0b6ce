-- ===== src/Wal/Recovery.antt =====
-- What a restart finds in the log after commits that ended in any way (`wo_wal_commit`, `wo_wal_open`
-- and the loop of `wo_wal_replay_ex` in database/src/wal.c).
use writeonce.Common.{
  ℕ, zero, suc, ◌≤◌, ◌≡◌, refl, ◌∙◌, sym, ap, ap₂, Bool, true, List, [], ◌∷◌, ◌++◌, append_assoc,
  length, take, drop, length-append, length-take, take-append-drop, drop-length_append, drop-drop,
  All, All-append, arith,
}
use writeonce.Wire.{Memory}
use writeonce.Log.{frame, frames, past, record_loop, log_records}
use writeonce.Log.Frame.{IsPayload, scan_record-frame}
use writeonce.Log.Prefix.{frames-append, past-eq, length-frames-ge}
use writeonce.Wal.{Wal, Answer, Outcome, written, waiting, err_write, err_sync, wal_commit}
use writeonce.Wal.Commit.{Settled, Barrier, IsSynced, wal_commit-IsSynced, wal_commit-Barrier}

module _ (mem : Memory) (all : (n : ℕ) → mem n ≡ true) (file : List ℕ) where
  record_loop-frames :
      (ps : List (List ℕ)) (rest : List ℕ) (fuel off : ℕ)
      → All IsPayload ps
      → drop off file ≡ frames ps ++ rest
      → length ps ≤ fuel
      → (more : List (List ℕ)) × (record_loop mem fuel file off ≡ ps ++ more)
  unfolding record_loop
  record_loop-frames [] rest fuel off v at h = (record_loop mem fuel file off, refl)
  record_loop-frames (p ∷ ps) rest zero off v at h = elim h [ ]
  record_loop-frames (p ∷ ps) rest (suc fuel) off v at h =
      let at' = at ∙ append_assoc (frame p) (frames ps) rest in
      let next =
        record_loop-frames ps rest fuel (past off p) v.1
          (ap (λ k. drop k file) (past-eq off p)
            ∙ sym (drop-drop off (length (frame p)) file)
            ∙ ap (λ t. drop (length (frame p)) t) at'
            ∙ drop-length_append (length (frame p)) (frame p) (frames ps ++ rest) refl)
          (omega arith) in
      let here = scan_record-frame mem all file p (frames ps ++ rest) off v.0 at' in
      (next.0, rw (here, record_loop) (ap (λ t. p ∷ t) next.1))

-- The records `ps` are in the file, and the next batch goes behind them.
pub record IsLogged (w : Wal) (ps : List (List ℕ)) : Type 0 where
  pub payloads : All IsPayload ps
  pub end : w.off ≡ length (frames ps)
  pub in_file : take w.off w.file ≡ frames ps
  pub long_enough : w.off ≤ length w.file

-- A replay of a file that begins with these records starts with them, in their order.
pub log_records-prefix :
    (mem : Memory)
    → ((n : ℕ) → mem n ≡ true)
    → (file : List ℕ) (ps : List (List ℕ)) (off : ℕ) → All IsPayload ps
    → off ≤ length file
    → take off file ≡ frames ps
    → (more : List (List ℕ)) × (log_records mem file ≡ ps ++ more)
unfolding log_records
log_records-prefix mem all file ps off v room e =
    let whole = ap (λ t. t ++ drop off file) (sym e) ∙ take-append-drop off file in
    let size = ap (λ (t : List ℕ). length t) e in
    record_loop-frames mem all file ps (drop off file) (length file) 0 v (sym whole)
      (omega (arith, size, length-take off file, length-frames-ge ps))

-- The records a restart is owed after a commit of the batch `qs`.
unfoldable pub owed : Outcome → List (List ℕ) → List (List ℕ) → List (List ℕ)
owed written ps qs = ps ++ qs
owed waiting ps qs = ps
owed err_write ps qs = ps
owed err_sync ps qs = ps

module _ (w : Wal) (ps qs : List (List ℕ)) (d : IsLogged w ps) (vq : All IsPayload qs)
    (staged : w.buf ≡ frames qs) where
  IsLogged-kept : (o : Outcome) (w' : Wal) → Barrier w o w' → w'.off ≡ w.off → IsLogged w' ps
  IsLogged-kept o w' b same = record {
    payloads = d.payloads;
    end = same ∙ d.end;
    in_file = ap (λ k. take k w'.file) same ∙ b.prefix_kept ∙ d.in_file;
    long_enough = b.long_enough;
  }

  IsLogged-owed : (o : Outcome) (w' : Wal) → Barrier w o w' → IsLogged w' (owed o ps qs)
  unfolding owed Settled
  IsLogged-owed written w' b =
      let (moved, emptied, whole) = b.settled in
      let size = ap (λ (t : List ℕ). length t) staged in
      record {
        payloads = All-append IsPayload ps qs d.payloads vq;
        end = omega (
          arith,
          moved,
          size,
          d.end,
          length-append (frames ps) (frames qs),
          ap (λ (t : List ℕ). length t) (frames-append ps qs),
        );
        in_file = whole ∙ ap₂ (λ x y. x ++ y) d.in_file staged ∙ sym (frames-append ps qs);
        long_enough = b.long_enough;
      }
  IsLogged-owed waiting w' b = IsLogged-kept waiting w' b b.settled.0
  IsLogged-owed err_write w' b = IsLogged-kept err_write w' b b.settled.0
  IsLogged-owed err_sync w' b = IsLogged-kept err_sync w' b b.settled.0

-- A batch of whole records is committed behind those of the file, with any answers of the kernel and
-- memory for every payload: the records that were in the file still are, and when the commit reports
-- success those of the batch are in it behind them; it reports success only where fdatasync succeeded
-- after the last write or nothing was staged, and the error of the barrier only where fdatasync failed;
-- the replay of the file starts with exactly these records, in their order.
pub wal_commit-IsLogged :
    (mem : Memory)
    → ((n : ℕ) → mem n ≡ true)
    → (w : Wal) (ps qs : List (List ℕ)) (answers : List Answer) (synced : Bool) → IsLogged w ps
    → All IsPayload qs
    → w.buf ≡ frames qs
    → let (o, w') = wal_commit answers synced w in
      IsLogged w' (owed o ps qs)
      × IsSynced synced w o
      × ((more : List (List ℕ)) × (log_records mem w'.file ≡ owed o ps qs ++ more))
wal_commit-IsLogged mem all w ps qs answers synced d vq staged =
    let (o, w') = wal_commit answers synced w in
    let safe =
      IsLogged-owed w ps qs d vq staged o w' (wal_commit-Barrier w answers synced d.long_enough) in
    (
      safe,
      wal_commit-IsSynced w answers synced d.long_enough,
      log_records-prefix mem all w'.file (owed o ps qs) w'.off safe.payloads safe.long_enough
          (safe.in_file),
    )
