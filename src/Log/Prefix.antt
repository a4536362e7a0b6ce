-- ===== src/Log/Prefix.antt =====
-- A whole log (`wo_wal_open` and `wo_wal_check` of database/src/wal.c): the intact prefix.
use writeonce.Common.{
  ℕ, zero, suc, ◌+◌, ◌≤◌, ◌≡◌, refl, ◌∙◌, sym, ap, ap₂, none, some, List, [], ◌∷◌, ◌++◌,
  append_assoc, length, drop, length-append, length-take, length-drop, drop-length_append,
  drop-drop, All, Option-cases, inl, inr, arith, true,
}
use writeonce.Wire.{Memory}
use writeonce.Wire.Integers.{IsByte}
use writeonce.Log.{
  frame, frames, pread, scan_record, past, intact_end, check_loop, open_offset, wal_check,
}
use writeonce.Log.Frame.{IsPayload, length-frame, scan_record-frame}
use writeonce.Log.Scan.{Passed, scan_record-Passed, scan_record_sound}

pub frames-append : (ps qs : List (List ℕ)) → frames (ps ++ qs) ≡ frames ps ++ frames qs
frames-append [] qs = refl
frames-append (p ∷ ps) qs =
    ap (λ t. frame p ++ t) (frames-append ps qs)
    ∙ sym (append_assoc (frame p) (frames ps) (frames qs))

pub past-eq : (off : ℕ) (p : List ℕ) → past off p ≡ off + length (frame p)
past-eq off p = omega (arith, length-frame p)

-- Where an accepted record ends, the file has not ended before.
scan_record-room :
    (mem : Memory) (file p : List ℕ) (off : ℕ)
    → scan_record mem file off ≡ some p
    → past off p ≤ length file
scan_record-room mem file p off e = room (scan_record-Passed mem file p off e)
  where
    room : Passed mem file p off → past off p ≤ length file
    room t =
        unfold pread in
        omega (
          arith,
          t.filled,
          length-take (length p + 4) (drop (off + 8) file),
          length-drop (off + 8) file,
        )

-- The intact prefix of a file from `off` on: the payloads and the offset behind them.
pub record Intact (mem : Memory) (file : List ℕ) (off end : ℕ) (ps : List (List ℕ)) : Type 0 where
  pub payloads : All IsPayload ps
  pub bytes : drop off file ≡ frames ps ++ drop end file
  pub ends : end ≡ off + length (frames ps)
  pub maximal : scan_record mem file end ≡ none

module _ (mem : Memory) (file : List ℕ) where
  intact_end-Intact :
      All IsByte file
      → (fuel off : ℕ) → length file ≤ off + fuel
      → (ps : List (List ℕ)) × Intact mem file off (intact_end mem fuel file off) ps
  unfolding intact_end
  intact_end-Intact h zero off enough = (
    [],
    record {
      payloads = tt;
      bytes = refl;
      ends = omega arith;
      maximal = elim (Option-cases (scan_record mem file off)) [
        | inl e ↦ e
        | inr (p, e) ↦ absurd (omega (arith, scan_record-room mem file p off e))
      ];
    },
  )
  intact_end-Intact h (suc fuel) off enough = elim (Option-cases (scan_record mem file off)) [
    | inl e ↦
        rw (e, intact_end)
          ([], record { payloads = tt; bytes = refl; ends = omega arith; maximal = e })
    | inr (p, e) ↦
        let (valid, at) = scan_record_sound mem file p off h e in
        let (ps, more) = intact_end-Intact h fuel (past off p) (omega arith) in
        let end = intact_end mem fuel file (past off p) in
        rw (e, intact_end)
          (
            p ∷ ps,
            record {
              payloads = (valid, more.payloads);
              bytes =
                  at
                  ∙ ap (λ t. frame p ++ t) more.bytes
                  ∙ sym (append_assoc (frame p) (frames ps) (drop end file));
              ends = omega (arith, more.ends, length-append (frame p) (frames ps), length-frame p);
              maximal = more.maximal;
            },
          )
  ]

  -- In a log of bytes, whatever malloc answers, `wo_wal_open` goes on behind a run of whole records
  -- from the start of the file, every one as its frame, and at that offset `scan_record` accepts none.
  pub open_offset-Intact :
      All IsByte file → (ps : List (List ℕ)) × Intact mem file 0 (open_offset mem file) ps
  unfolding open_offset
  open_offset-Intact h = intact_end-Intact h (length file) 0 (omega arith)

  check_loop-intact_end :
      (fuel off records : ℕ)
      → (check_loop mem fuel file off records).1 ≡ intact_end mem fuel file off
  unfolding check_loop intact_end
  check_loop-intact_end zero off records = refl
  check_loop-intact_end (suc fuel) off records = elim (Option-cases (scan_record mem file off)) [
    | inl e ↦ rw (e, check_loop, intact_end)
    | inr (p, e) ↦
        rw (e, check_loop, intact_end) (check_loop-intact_end fuel (past off p) (records + 1))
  ]

  module _ (all : (n : ℕ) → mem n ≡ true) where
    check_loop-frames :
        (ps : List (List ℕ)) (rest : List ℕ) (fuel off records : ℕ)
        → All IsPayload ps
        → drop off file ≡ frames ps ++ rest
        → scan_record mem file (off + length (frames ps)) ≡ none
        → length ps ≤ fuel
        → check_loop mem fuel file off records ≡ (records + length ps, off + length (frames ps))
    unfolding check_loop
    check_loop-frames [] rest zero off records v at none_left h =
        ap₂ (λ (x y : ℕ). (x, y)) (omega arith) (omega arith)
    check_loop-frames [] rest (suc fuel) off records v at none_left h =
        let here : off + length (frames []) ≡ off = omega arith in
        let stop = rw here at none_left in
        rw (stop, check_loop) (ap₂ (λ (x y : ℕ). (x, y)) (omega arith) (omega arith))
    check_loop-frames (p ∷ ps) rest zero off records v at none_left h = elim h [ ]
    check_loop-frames (p ∷ ps) rest (suc fuel) off records v at none_left h =
        let at' = at ∙ append_assoc (frame p) (frames ps) rest in
        let far : past off p + length (frames ps) ≡ off + length (frames (p ∷ ps)) =
          omega (arith, length-append (frame p) (frames ps), length-frame p) in
        let next =
          check_loop-frames ps rest fuel (past off p) (records + 1) v.1
            (ap (λ k. drop k file) (past-eq off p)
              ∙ sym (drop-drop off (length (frame p)) file)
              ∙ ap (λ t. drop (length (frame p)) t) at'
              ∙ drop-length_append (length (frame p)) (frame p) (frames ps ++ rest) refl)
            (rw far none_left) (omega arith) in
        rw (scan_record-frame mem all file p (frames ps ++ rest) off v.0 at', check_loop)
          (next ∙ ap₂ (λ (x y : ℕ). (x, y)) (omega arith) far)

pub length-frames-ge : (ps : List (List ℕ)) → length ps ≤ length (frames ps)
length-frames-ge [] = omega arith
length-frames-ge (p ∷ ps) =
    omega (arith, length-append (frame p) (frames ps), length-frame p, length-frames-ge ps)

-- With memory for every record, and no record behind those of a log: `wo_wal_check` counts them and
-- the bytes they take, and `wo_wal_open` goes on behind them.
pub wal_check-frames :
    (mem : Memory)
    → ((n : ℕ) → mem n ≡ true)
    → (ps : List (List ℕ)) (rest : List ℕ) → All IsPayload ps
    → scan_record mem (frames ps ++ rest) (length (frames ps)) ≡ none
    → (wal_check mem (frames ps ++ rest) ≡ (length ps, length (frames ps)))
      × (open_offset mem (frames ps ++ rest) ≡ length (frames ps))
unfolding wal_check open_offset
wal_check-frames mem all ps rest v none_left =
    let file = frames ps ++ rest in
    let zero_off : 0 + length (frames ps) ≡ length (frames ps) = omega arith in
    let run =
      check_loop-frames mem file all ps rest (length file) 0 0 v refl (rw zero_off none_left)
        (omega (arith, length-append (frames ps) rest, length-frames-ge ps)) in
    (
      run ∙ ap₂ (λ (x y : ℕ). (x, y)) (omega arith) zero_off,
      sym (check_loop-intact_end mem file (length file) 0 0)
          ∙ ap (λ (r : ℕ × ℕ). r.1) run
          ∙ zero_off,
    )
