-- ===== src/Wal/Fatal.antt =====
-- The counted barrier (`wo_wal_commit_fatal` of database/src/wal.c).
use writeonce.Common.{
  ℕ, ◌+◌, ◌≤◌, ◌≡◌, refl, ap, Bool, true, false, not, Option, none, some, List, [], ◌∷◌, length,
  take, drop, ltb, ◌==◌, if◌then◌else◌, Bool-cases, subst, inl, inr, arith, max,
}
use writeonce.Wal.{
  Wal, Answer, wrote, interrupted, failed, Outcome, written, waiting, err_write, err_sync,
  overwrite, write_loop, after_write, wal_commit, count_batch, wal_commit_fatal,
}
use writeonce.Wal.Commit.{Settled, IsSynced, wal_commit-IsSynced, wal_commit-Barrier}

-- The figures of barriers as they were.
abbrev SameFigures : Wal → Outcome × Wal → Type 0
SameFigures w r = (r.1.stat_batches ≡ w.stat_batches) × (r.1.stat_records ≡ w.stat_records)

SameFigures-if :
    (w : Wal) (b : Bool) (x y : Outcome × Wal)
    → SameFigures w x
    → SameFigures w y
    → SameFigures w (if b then x else y)
SameFigures-if w true x y f g = f
SameFigures-if w false x y f g = g

write_loop-SameFigures :
    (answers : List Answer) (w : Wal) (at : ℕ) → SameFigures w (write_loop answers w at)
unfolding write_loop
write_loop-SameFigures [] w at =
    SameFigures-if w (ltb at (length w.buf)) (waiting, w) (written, w) (refl, refl) (refl, refl)
write_loop-SameFigures (wrote n ∷ more) w at =
    let chunk = take n (drop at w.buf) in
    let w' = record w { file = overwrite w.file (w.off + at) chunk } in
    SameFigures-if w (ltb at (length w.buf)) (write_loop more w' (at + length chunk)) (written, w)
      (write_loop-SameFigures more w' (at + length chunk)) (refl, refl)
write_loop-SameFigures (interrupted ∷ more) w at =
    SameFigures-if w (ltb at (length w.buf)) (write_loop more w at) (written, w)
      (write_loop-SameFigures more w at) (refl, refl)
write_loop-SameFigures (failed ∷ more) w at =
    SameFigures-if w (ltb at (length w.buf)) (err_write, w) (written, w) (refl, refl) (refl, refl)

after_write-SameFigures :
    (w : Wal) (synced : Bool) (r : Outcome × Wal)
    → SameFigures w r
    → SameFigures w (after_write synced r)
unfolding after_write
after_write-SameFigures w true (written, w') s = s
after_write-SameFigures w false (written, w') s = s
after_write-SameFigures w synced (waiting, w') s = s
after_write-SameFigures w synced (err_write, w') s = s
after_write-SameFigures w synced (err_sync, w') s = s

wal_commit-SameFigures :
    (w : Wal) (answers : List Answer) (synced : Bool) → SameFigures w (wal_commit answers synced w)
unfolding wal_commit
wal_commit-SameFigures w answers synced =
    let counted = record w { stat_peak_staged = max w.stat_peak_staged (length w.buf) } in
    SameFigures-if w (length w.buf == 0) (written, w)
      (after_write synced (write_loop answers counted 0)) (refl, refl)
      (after_write-SameFigures w synced (write_loop answers counted 0)
        (write_loop-SameFigures answers counted 0))

-- The state that the caller goes on with: the batch is in the file, behind an fdatasync that succeeded
-- unless nothing was staged, and the barrier is counted with its records if there was one.
pub record Acknowledged (synced : Bool) (w w' : Wal) (nrec : ℕ) : Type 0 where
  pub in_file : Settled written w w'
  pub behind_sync : IsSynced synced w written
  pub batches : w'.stat_batches ≡ w.stat_batches + (if length w.buf == 0 then 0 else 1)
  pub records : w'.stat_records ≡ w.stat_records + (if length w.buf == 0 then 0 else nrec)

abbrev value_or : Wal → Option Wal → Wal
value_or w none = w
value_or w (some w') = w'

count_batch-Acknowledged :
    (synced : Bool) (w : Wal) (nrec : ℕ) (r : Outcome × Wal) (w' : Wal)
    → SameFigures w r
    → IsSynced synced w r.0
    → Settled r.0 w r.1
    → count_batch (not (length w.buf == 0)) nrec r ≡ some w'
    → Acknowledged synced w w' nrec
unfolding count_batch Settled
count_batch-Acknowledged synced w nrec (written, w1) w' same sync settled e =
    elim (Bool-cases (length w.buf == 0)) [
      | inl nothing ↦
          let here : w1 ≡ w' = ap (value_or w1) (rw nothing at e) in
          subst (λ z. Acknowledged synced w z nrec) here
            (record {
              in_file = settled;
              behind_sync = sync;
              batches = rw nothing (omega (arith, same.0));
              records = rw nothing (omega (arith, same.1));
            })
      | inr staged ↦
          let counted = record w1 {
            stat_batches = w1.stat_batches + 1;
            stat_records = w1.stat_records + nrec;
            stat_peak_batch = max w1.stat_peak_batch nrec;
          } in
          let here : counted ≡ w' = ap (value_or w1) (rw staged at e) in
          subst (λ z. Acknowledged synced w z nrec) here
            (record {
              in_file = settled;
              behind_sync = sync;
              batches = rw staged (omega (arith, same.0));
              records = rw staged (omega (arith, same.1));
            })
    ]
count_batch-Acknowledged synced w nrec (waiting, w1) w' same sync settled e =
    absurd (ground (arith, e))
count_batch-Acknowledged synced w nrec (err_write, w1) w' same sync settled e =
    absurd (ground (arith, e))
count_batch-Acknowledged synced w nrec (err_sync, w1) w' same sync settled e =
    absurd (ground (arith, e))

-- For a write position inside the file, whatever the kernel answers: when `wo_wal_commit_fatal`
-- returns, the whole batch is in the file, fdatasync has succeeded behind its last write, and the barrier
-- is counted with its records, the latter two unless nothing was staged.
pub wal_commit_fatal-Acknowledged :
    (w w' : Wal) (answers : List Answer) (synced : Bool) (nrec : ℕ)
    → w.off ≤ length w.file
    → wal_commit_fatal answers synced w nrec ≡ some w'
    → Acknowledged synced w w' nrec
unfolding wal_commit_fatal
wal_commit_fatal-Acknowledged w w' answers synced nrec room e =
    count_batch-Acknowledged synced w nrec (wal_commit answers synced w) w'
      (wal_commit-SameFigures w answers synced) (wal_commit-IsSynced w answers synced room)
      (wal_commit-Barrier w answers synced room).settled e
