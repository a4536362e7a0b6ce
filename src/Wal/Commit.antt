-- ===== src/Wal/Commit.antt =====
-- The barrier (`wo_wal_commit` of database/src/wal.c) over every sequence of answers of pwrite.
use writeonce.Common.{
  ℕ, ◌+◌, ◌≤◌, ◌≡◌, ◌≢◌, refl, ◌∙◌, sym, ap, Bool, true, false, List, [], ◌∷◌, ◌++◌, append_assoc,
  append-nil, length, take, drop, length-append, length-take, take-length_append, ltb, ◌==◌,
  if◌then◌else◌, max, Bool-cases, ltb→le, ==→eq, ◌⊎◌, inl, inr, arith,
}
use writeonce.Wal.{
  Wal, Answer, wrote, interrupted, failed, Outcome, written, waiting, err_write, err_sync,
  overwrite, write_loop, after_write, wal_commit,
}
use writeonce.Wal.Positions.{
  take-take, overwrite-through, length-overwrite-ge, take_further, take_beyond, no_bytes_left,
}

-- A pass of the loop: what it keeps of the start state, with `at` bytes of the batch in the file.
record Passing (w w' : Wal) (at : ℕ) : Type 0 where
  same_off : w'.off ≡ w.off
  same_buf : w'.buf ≡ w.buf
  reaches : w.off + at ≤ length w'.file
  holds : take (w.off + at) w'.file ≡ take w.off w.file ++ take at w.buf

module _ (w : Wal) (room : w.off ≤ length w.file) where
  Passing-start : Passing w w 0
  Passing-start = record {
    same_off = refl;
    same_buf = refl;
    reaches = omega arith;
    holds = ap (λ k. take k w.file) (omega arith) ∙ sym (append-nil (take w.off w.file));
  }

  Passing-step :
      (w' : Wal) (at n : ℕ)
      → Passing w w' at
      → let chunk = take n (drop at w'.buf) in
        Passing w (record w' { file = overwrite w'.file (w'.off + at) chunk }) (at + length chunk)
  Passing-step w' at n p =
      let chunk = take n (drop at w'.buf) in
      let here : w'.off + at ≤ length w'.file = omega (arith, p.same_off, p.reaches) in
      let sum : w.off + (at + length chunk) ≡ w'.off + at + length chunk =
        omega (arith, p.same_off) in
      let start : w'.off + at ≡ w.off + at = omega (arith, p.same_off) in
      record {
        same_off = p.same_off;
        same_buf = p.same_buf;
        reaches = omega (arith, sum, length-overwrite-ge w'.file chunk (w'.off + at) here);
        holds =
            ap (λ k. take k (overwrite w'.file (w'.off + at) chunk)) sum
            ∙ overwrite-through w'.file chunk (w'.off + at) here
            ∙ ap (λ k. take k w'.file ++ chunk) start
            ∙ ap (λ t. t ++ chunk) p.holds
            ∙ append_assoc (take w.off w.file) (take at w.buf) chunk
            ∙ ap (λ t. take w.off w.file ++ t)
                (ap (λ b. take at b ++ chunk) (sym p.same_buf)
                  ∙ take_further at n w'.buf
                  ∙ ap (λ b. take (at + length chunk) b) p.same_buf);
      }

  -- What the loop ends in, from a pass at `at`.
  abbrev Ends : Outcome × Wal → Type 0
  Ends r = (at : ℕ) × Passing w r.1 at × (r.0 ≡ written → length w.buf ≤ at) × (r.0 ≢ err_sync)

  Ends-if :
      (b : Bool) (x y : Outcome × Wal)
      → (b ≡ true → Ends x)
      → (b ≡ false → Ends y)
      → Ends (if b then x else y)
  Ends-if true x y more full = more refl
  Ends-if false x y more full = full refl

  Ends-written :
      (w' : Wal) (at : ℕ) → Passing w w' at → ltb at (length w'.buf) ≡ false → Ends (written, w')
  Ends-written w' at p full =
      (at, p, (λ e. rw p.same_buf at (ltb→le at (length w'.buf) full)), (λ e. cc))

  write_loop-Ends :
      (answers : List Answer) (w' : Wal) (at : ℕ)
      → Passing w w' at
      → Ends (write_loop answers w' at)
  unfolding write_loop
  write_loop-Ends [] w' at p =
      Ends-if (ltb at (length w'.buf)) (waiting, w') (written, w')
        (λ _. (at, p, (λ e. cc), (λ e. cc))) (Ends-written w' at p)
  write_loop-Ends (wrote n ∷ more) w' at p =
      let chunk = take n (drop at w'.buf) in
      Ends-if (ltb at (length w'.buf)) _ (written, w')
        (λ _.
          write_loop-Ends more (record w' { file = overwrite w'.file (w'.off + at) chunk })
            (at + length chunk) (Passing-step w' at n p))
        (Ends-written w' at p)
  write_loop-Ends (interrupted ∷ more) w' at p =
      Ends-if (ltb at (length w'.buf)) _ (written, w') (λ _. write_loop-Ends more w' at p)
        (Ends-written w' at p)
  write_loop-Ends (failed ∷ more) w' at p =
      Ends-if (ltb at (length w'.buf)) (err_write, w') (written, w')
        (λ _. (at, p, (λ e. cc), (λ e. cc))) (Ends-written w' at p)

  prefix_of : (w' : Wal) (at : ℕ) → Passing w w' at → take w.off w'.file ≡ take w.off w.file
  prefix_of w' at p =
      sym (take-take w.off (w.off + at) w'.file (omega arith))
      ∙ ap (take w.off) p.holds
      ∙ take-length_append w.off (take w.off w.file) (take at w.buf)
          (omega (arith, length-take w.off w.file))

-- Success: the whole batch lies behind the old contents, `off` has moved behind it and nothing is
-- staged. Any other end: `off` and the batch are as they were.
unfoldable pub Settled : Outcome → Wal → Wal → Type 0
Settled written w w' =
    (w'.off ≡ w.off + length w.buf)
    × (w'.buf ≡ [])
    × (take w'.off w'.file ≡ take w.off w.file ++ w.buf)
Settled waiting w w' = (w'.off ≡ w.off) × (w'.buf ≡ w.buf)
Settled err_write w w' = (w'.off ≡ w.off) × (w'.buf ≡ w.buf)
Settled err_sync w w' = (w'.off ≡ w.off) × (w'.buf ≡ w.buf)

-- What a commit of `w` ends in, whatever the kernel answers: what lies before the old `off` is in
-- the file as it was.
pub record Barrier (w : Wal) (o : Outcome) (w' : Wal) : Type 0 where
  pub prefix_kept : take w.off w'.file ≡ take w.off w.file
  pub prefix_room : w.off ≤ length w'.file
  pub long_enough : w'.off ≤ length w'.file
  pub settled : Settled o w w'

module _ (w : Wal) (room : w.off ≤ length w.file) where
  Barrier-refused :
      (o : Outcome) (w' : Wal) (at : ℕ) → Settled o w w' → Passing w w' at → Barrier w o w'
  Barrier-refused o w' at s p = record {
    prefix_kept = prefix_of w room w' at p;
    prefix_room = omega (arith, p.reaches);
    long_enough = omega (arith, p.same_off, p.reaches);
    settled = s;
  }

  Barrier-committed :
      (w' : Wal) (at : ℕ)
      → Passing w w' at
      → length w.buf ≤ at
      → Barrier w written (record w' { off = w'.off + length w'.buf; buf = [] })
  unfolding Settled
  Barrier-committed w' at p all =
      let size = ap (λ (t : List ℕ). length t) p.same_buf in
      let end : w'.off + length w'.buf ≡ w.off + length w.buf = omega (arith, size, p.same_off) in
      let whole = take_beyond at w.buf all in
      record {
        prefix_kept = prefix_of w room w' at p;
        prefix_room = omega (arith, p.reaches);
        long_enough = omega (arith, end, p.reaches);
        settled = (
          end,
          refl,
          ap (λ k. take k w'.file) end
              ∙ sym (take-take (w.off + length w.buf) (w.off + at) w'.file (omega arith))
              ∙ ap (take (w.off + length w.buf)) (p.holds ∙ ap (λ t. take w.off w.file ++ t) whole)
              ∙ take_beyond (w.off + length w.buf) (take w.off w.file ++ w.buf) (
                  omega (arith, length-append (take w.off w.file) w.buf, length-take w.off w.file)),
        );
      }

  after_write-Barrier :
      (synced : Bool) (r : Outcome × Wal)
      → Ends w room r
      → Barrier w (after_write synced r).0 (after_write synced r).1
  unfolding after_write Settled
  after_write-Barrier true (written, w') (at, p, full, no_sync) =
      Barrier-committed w' at p (full refl)
  after_write-Barrier false (written, w') (at, p, full, no_sync) =
      Barrier-refused err_sync w' at (p.same_off, p.same_buf) p
  after_write-Barrier synced (waiting, w') (at, p, full, no_sync) =
      Barrier-refused waiting w' at (p.same_off, p.same_buf) p
  after_write-Barrier synced (err_write, w') (at, p, full, no_sync) =
      Barrier-refused err_write w' at (p.same_off, p.same_buf) p
  after_write-Barrier synced (err_sync, w') (at, p, full, no_sync) = absurd (no_sync refl)

-- What the answer of fdatasync has to be for an end: success only with its success, or with nothing
-- staged, and the error of the barrier only with its failure.
abbrev pub IsSynced : Bool → Wal → Outcome → Type 0
IsSynced synced w written = (w.buf ≡ []) ⊎ (synced ≡ true)
IsSynced synced w err_sync = synced ≡ false
IsSynced synced w waiting = Unit
IsSynced synced w err_write = Unit

after_write-IsSynced :
    (w : Wal) (synced : Bool) (r : Outcome × Wal)
    → r.0 ≢ err_sync
    → IsSynced synced w (after_write synced r).0
unfolding after_write
after_write-IsSynced w true (written, w') no_sync = inr refl
after_write-IsSynced w false (written, w') no_sync = refl
after_write-IsSynced w synced (waiting, w') no_sync = tt
after_write-IsSynced w synced (err_write, w') no_sync = tt
after_write-IsSynced w synced (err_sync, w') no_sync = absurd (no_sync refl)

pub wal_commit-IsSynced :
    (w : Wal) (answers : List Answer) (synced : Bool)
    → w.off ≤ length w.file
    → IsSynced synced w (wal_commit answers synced w).0
unfolding wal_commit
wal_commit-IsSynced w answers synced room = elim (Bool-cases (length w.buf == 0)) [
  | inl nothing ↦ rw nothing (inl (no_bytes_left w.buf (==→eq (length w.buf) 0 nothing)))
  | inr some_bytes ↦
      let counted = record w { stat_peak_staged = max w.stat_peak_staged (length w.buf) } in
      let ends = write_loop-Ends counted room answers counted 0 (Passing-start counted room) in
      rw some_bytes (after_write-IsSynced w synced (write_loop answers counted 0) ends.3)
]

Settled-counted :
    (o : Outcome) (w w' : Wal) (n : ℕ)
    → Settled o (record w { stat_peak_staged = n }) w'
    → Settled o w w'
unfolding Settled
Settled-counted written w w' n s = s
Settled-counted waiting w w' n s = s
Settled-counted err_write w w' n s = s
Settled-counted err_sync w w' n s = s

-- Whatever pwrite and fdatasync answer, in however many parts, for a write position inside the file:
-- a commit that reports success has put the whole batch behind the old contents, moved `off` behind
-- it and emptied the batch; any other end leaves `off` and the batch as they were; and nothing
-- before the old `off` is changed.
pub wal_commit-Barrier :
    (w : Wal) (answers : List Answer) (synced : Bool)
    → w.off ≤ length w.file
    → Barrier w (wal_commit answers synced w).0 (wal_commit answers synced w).1
unfolding wal_commit Settled
wal_commit-Barrier w answers synced room = elim (Bool-cases (length w.buf == 0)) [
  | inl nothing ↦ simp nothing (
      let empty = no_bytes_left w.buf (==→eq (length w.buf) 0 nothing) in
      record {
        prefix_kept = refl;
        prefix_room = room;
        long_enough = room;
        settled = (
          omega (arith, ==→eq (length w.buf) 0 nothing),
          empty,
          sym (ap (λ b. take w.off w.file ++ b) empty ∙ append-nil (take w.off w.file)),
        );
      })
  | inr some_bytes ↦ simp some_bytes (
      let counted = record w { stat_peak_staged = max w.stat_peak_staged (length w.buf) } in
      let r = after_write synced (write_loop answers counted 0) in
      let b =
        after_write-Barrier counted room synced (write_loop answers counted 0)
          (write_loop-Ends counted room answers counted 0 (Passing-start counted room)) in
      record {
        prefix_kept = b.prefix_kept;
        prefix_room = b.prefix_room;
        long_enough = b.long_enough;
        settled = Settled-counted r.0 w r.1 (max w.stat_peak_staged (length w.buf)) b.settled;
      })
]
