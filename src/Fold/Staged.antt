-- ===== src/Fold/Staged.antt =====
-- A record read from the staged bytes (`scan_record_staged` of database/src/wal.c) against the same
-- record read from the file after the commit.
use writeonce.Common.{
  ℕ, zero, suc, ◌+◌, ◌-◌, ◌≤◌, ◌≡◌, refl, ◌∙◌, sym, ap, Bool, not, ◌||◌, ◌&&◌, none, some, List, [],
  ◌∷◌, ◌++◌, length, take, drop, length-take, length-drop, drop-drop, drop-length_append, All,
  le→ltb, subst, ltb, leb, ◌==◌, if◌then◌else◌, Bool-cases, inl, inr, arith, min,
}
use writeonce.Wire.{Memory, le_value}
use writeonce.Wire.Integers.{IsByte}
use writeonce.Crc.{crc32}
use writeonce.Engine.Sound.{All-take, All-drop}
use writeonce.Log.{mark, max_payload, pread, field_at, check_payload, scan_record}
use writeonce.Log.Scan.{scan_record_sound, scan_record-Passed}
use writeonce.Wal.{Wal, Answer, Outcome, written, wal_commit}
use writeonce.Wal.Commit.{Settled, wal_commit-Barrier}
use writeonce.Fold.{staged_payload, scan_record_staged, record_at}

take-drop-take :
    (m k n : ℕ) (xs : List ℕ) → k + m ≤ n → take m (drop k (take n xs)) ≡ take m (drop k xs)
take-drop-take zero k n xs h = refl
take-drop-take (suc m) zero zero xs h = absurd (omega arith)
take-drop-take (suc m) zero (suc n) [] h = refl
take-drop-take (suc m) zero (suc n) (x ∷ xs) h =
    ap (λ t. x ∷ t) (take-drop-take m 0 n xs (omega arith))
take-drop-take (suc m) (suc k) zero xs h = absurd (omega arith)
take-drop-take (suc m) (suc k) (suc n) [] h = refl
take-drop-take (suc m) (suc k) (suc n) (x ∷ xs) h = take-drop-take (suc m) k n xs (omega arith)

-- A payload tested within what follows it, and cut out first.
check_payload-cut :
    (len crc : ℕ) (ys : List ℕ)
    → check_payload len crc (take (len + 4) ys) ≡ (
        if ltb (length ys) (len + 4)
        then none
        else if not (field_at len ys == mark) || not (crc32 (take len ys) == crc)
        then none
        else some (take len ys))
unfolding check_payload field_at
check_payload-cut len crc ys =
    rw
      (
        take-drop-take 4 len (len + 4) ys (omega arith),
        take-drop-take len 0 (len + 4) ys (omega arith),
      )
      (ground (arith, length-take (len + 4) ys))

-- The tests of both functions in the order of each.
same_tests :
    (L rel len l8 : ℕ) (M m : Bool) (p : List ℕ)
    → l8 ≡ min 8 (L - rel)
    → (if ltb L (rel + 8)
        then none
        else if len == 0 || ltb max_payload len
        then none
        else if ltb L (rel + 8 + len + 4)
        then none
        else if M
        then none
        else if m
        then some p
        else none)
      ≡ (if not (l8 == 8)
          then none
          else if len == 0 || ltb max_payload len
          then none
          else if not m
          then none
          else if ltb (L - (rel + 8)) (len + 4)
          then none
          else if M
          then none
          else some p)
same_tests L rel len l8 M m p e = ground arith

-- In a file whose bytes from `off` on are those of the batch, `scan_record` finds there what
-- `scan_record_staged` finds in the batch.
scan_staged-same :
    (mem : Memory) (w : Wal) (file : List ℕ) (off : ℕ)
    → w.off ≤ off
    → drop off file ≡ drop (off - w.off) w.buf
    → scan_record_staged mem w off ≡ scan_record mem file off
unfolding scan_record_staged staged_payload scan_record pread field_at
scan_staged-same mem w file off h same =
    let rel = off - w.off in
    let len = le_value (take 4 (drop rel w.buf)) in
    let crc = le_value (take 4 (drop (rel + 4) w.buf)) in
    let ys = drop (rel + 8) w.buf in
    let behind : (n : ℕ) → drop (off + n) file ≡ drop (rel + n) w.buf =
      λ n. sym (drop-drop off n file) ∙ ap (λ t. drop n t) same ∙ drop-drop rel n w.buf in
    let at_len : take 4 (take 8 (drop off file)) ≡ take 4 (drop rel w.buf) =
      take-drop-take 4 0 8 (drop off file) (omega arith) ∙ ap (λ t. take 4 t) same in
    let at_crc : take 4 (drop 4 (take 8 (drop off file))) ≡ take 4 (drop (rel + 4) w.buf) =
      take-drop-take 4 4 8 (drop off file) (omega arith)
      ∙ ap (λ t. take 4 t) (drop-drop off 4 file ∙ behind 4) in
    let l8 = length (take 8 (drop off file)) in
    let size : l8 ≡ min 8 (length w.buf - rel) =
      length-take 8 (drop off file)
      ∙ ap (λ (t : List ℕ). min 8 (length t)) same
      ∙ ap (min 8) (length-drop rel w.buf) in
    rw
      (
        le→ltb off w.off h,
        at_len,
        at_crc,
        behind 8,
        check_payload-cut len crc ys,
        length-drop (rel + 8) w.buf,
      )
      (same_tests (length w.buf) rel len l8
        (not (field_at len ys == mark) || not (crc32 (take len ys) == crc)) (mem (len + 4))
        (take len ys) size)

-- The start of the file after a successful commit, up to the new write position.
abbrev pub committed : Wal → List ℕ
committed w = take w.off w.file ++ w.buf

-- A record read from the batch is the record of the old file with the batch behind it.
pub scan_record_staged-committed :
    (mem : Memory) (w : Wal) (off : ℕ)
    → w.off ≤ length w.file
    → w.off ≤ off
    → scan_record_staged mem w off ≡ scan_record mem (committed w) off
scan_record_staged-committed mem w off room h =
    let rel = off - w.off in
    let split : w.off + rel ≡ off = omega arith in
    let whole = committed w in
    scan_staged-same mem w whole off h (
      ap (λ n. drop n whole) (sym split)
      ∙ sym (drop-drop w.off rel whole)
      ∙ ap (λ t. drop rel t)
          (drop-length_append w.off (take w.off w.file) w.buf
            (omega (arith, length-take w.off w.file))))

Settled-written :
    (w w' : Wal) (o : Outcome) → o ≡ written → Settled o w w' → take w'.off w'.file ≡ committed w
unfolding Settled
Settled-written w w' o good s = (subst (λ x. Settled x w w') good s).2

-- What was read in full from the start of a file is what the file has there.
pread_whole :
    (n k o : ℕ) (file : List ℕ)
    → length (pread (take n file) k o) ≡ k
    → pread (take n file) k o ≡ pread file k o
unfolding pread
pread_whole n zero o file e = refl
pread_whole n (suc k) o file e = take-drop-take (suc k) o n file (
    omega (
      arith,
      e,
      length-take (suc k) (drop o (take n file)),
      length-drop o (take n file),
      length-take n file,
    ))

scan_record-same :
    (mem : Memory) (f1 f2 : List ℕ) (off len : ℕ)
    → pread f1 8 off ≡ pread f2 8 off
    → field_at 0 (pread f1 8 off) ≡ len
    → pread f1 (len + 4) (off + 8) ≡ pread f2 (len + 4) (off + 8)
    → scan_record mem f1 off ≡ scan_record mem f2 off
unfolding scan_record
scan_record-same mem f1 f2 off len head size body = rw (sym head, size, body) refl

-- A record in the start of a file is in the file.
scan_record-take :
    (mem : Memory) (file p : List ℕ) (n off : ℕ)
    → scan_record mem (take n file) off ≡ some p
    → scan_record mem file off ≡ some p
scan_record-take mem file p n off e =
    let x = scan_record-Passed mem (take n file) p off e in
    sym (
      scan_record-same mem (take n file) file off (length p) (pread_whole n 8 off file x.sized)
        x.len_read (pread_whole n (length p + 4) (off + 8) file x.filled))
    ∙ e

-- For a write position inside the file, whatever pwrite and fdatasync answer: after a commit that
-- reports success, a record that was read from the batch is read from the file at the same offset.
pub scan_record_staged-wal_commit :
    (mem : Memory) (w : Wal) (off : ℕ) (p : List ℕ) (answers : List Answer) (synced : Bool)
    → w.off ≤ length w.file
    → w.off ≤ off
    → scan_record_staged mem w off ≡ some p
    → (wal_commit answers synced w).0 ≡ written
    → scan_record mem (wal_commit answers synced w).1.file off ≡ some p
scan_record_staged-wal_commit mem w off p answers synced room h read good =
    let w' = (wal_commit answers synced w).1 in
    let barrier = wal_commit-Barrier w answers synced room in
    scan_record-take mem w'.file p w'.off off (
      ap (λ t. scan_record mem t off) (Settled-written w w' _ good barrier.settled)
      ∙ sym (scan_record_staged-committed mem w off room h)
      ∙ read)

staged-IsByte :
    (mem : Memory) (w : Wal) (off : ℕ) (p : List ℕ)
    → All IsByte w.buf
    → scan_record_staged mem w off ≡ some p
    → All IsByte p
unfolding scan_record_staged staged_payload
staged-IsByte mem w off p h e =
    let rel = off - w.off in
    let cut : take (field_at rel w.buf) (drop (rel + 8) w.buf) ≡ p = ground arith in
    subst (λ t. All IsByte t) cut
      (All-take (field_at rel w.buf) (drop (rel + 8) w.buf) (All-drop (rel + 8) w.buf h))

-- A record of the log or of the batch has bytes only.
pub record_at-IsByte :
    (mem : Memory) (w : Wal) (off : ℕ) (p : List ℕ)
    → All IsByte w.file
    → All IsByte w.buf
    → record_at mem w off ≡ some p
    → All IsByte p
unfolding record_at
record_at-IsByte mem w off p hf hb e =
    elim (Bool-cases (leb w.off off && ltb off (w.off + length w.buf))) [
      | inl staged ↦ staged-IsByte mem w off p hb (rw staged at e)
      | inr durable ↦ (scan_record_sound mem w.file p off hf (rw durable at e)).0.bytes
    ]
