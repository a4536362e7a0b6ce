-- ===== src/Wal/Staging.antt =====
-- Staging (`stage`, `stage_schema_head`, `wo_wal_next_offset` and the appends of
-- database/src/wal.c).
use writeonce.Common.{
  ℕ, ◌+◌, ◌-◌, ◌≤◌, ◌≡◌, refl, ◌∙◌, sym, ap, ap₂, Bool, true, false, not, ◌||◌, Option, none, some,
  subst, List, [], ◌++◌, append_assoc, append-nil, length, drop, length-append, drop-length_append,
  ◌==◌, if◌then◌else◌, Bool-cases, inl, inr, arith,
}
use writeonce.Wire.{Memory, Wbuf, no_bytes, wput}
use writeonce.Wire.Appending.{wput-Appends, Appends-append}
use writeonce.Crc.{crc32}
use writeonce.Engine.Encoding.{wput_u32-Appends}
use writeonce.Log.{frame, mark}
use writeonce.Wal.{
  Wal, framed, stage_frame, stage_head, head_for, stage_schema_head, stage, wal_next_offset,
}

-- `rec` holds the frame of the payload, unless an allocation failed.
pub framed-frame :
    (mem : Memory) (p : List ℕ) → (framed mem p).oom ≡ false → (framed mem p).bytes ≡ frame p
unfolding framed frame
framed-frame mem p good =
    (Appends-append (wput_u32-Appends mem no_bytes (length p)) (
        Appends-append (wput_u32-Appends mem _ (crc32 p))
          (Appends-append (wput-Appends mem _ p) (wput_u32-Appends mem _ mark)))).appended
      good

-- The schema record that the next append puts in front: only into an empty log.
abbrev pub pending_for : Wal → Option (List ℕ) → List ℕ
pending_for w none = []
pending_for w (some schema) =
    if w.schema_written
    then []
    else if not (w.off == 0) || not (length w.buf == 0)
    then []
    else frame schema

abbrev pub pending_head : Wal → List ℕ
pending_head w = pending_for w w.schema

-- Whether the schema is still to be looked at.
abbrev pub head_open : Wal → Bool
head_open w = elim w.schema [ none ↦ false | some _ ↦ not w.schema_written ]

pub no-pending_head : (w : Wal) → head_open w ≡ false → pending_head w ≡ []
no-pending_head w h = ground arith

-- `w'` is `w` with more bytes staged, nothing else changed that the log's contents depend on, and no
-- head to come.
pub record Staged (w w' : Wal) (bytes : List ℕ) : Type 0 where
  pub appended : w'.buf ≡ w.buf ++ bytes
  pub same_file : w'.file ≡ w.file
  pub same_off : w'.off ≡ w.off
  pub headed : head_open w' ≡ false

pub stage_frame-Staged :
    (mem : Memory) (w : Wal) (p : List ℕ)
    → head_open w ≡ false
    → (stage_frame mem w p).0 ≡ true
    → Staged w (stage_frame mem w p).1 (frame p)
unfolding stage_frame
stage_frame-Staged mem w p settled good = record {
  appended = ground (arith, framed-frame mem p);
  same_file = ground arith;
  same_off = ground arith;
  headed = ground arith;
}

stage_head-Staged :
    (mem : Memory) (w : Wal) (schema : List ℕ)
    → head_open w ≡ false
    → (stage_head mem w schema).0 ≡ true
    → Staged w (stage_head mem w schema).1 (frame schema)
unfolding stage_head
stage_head-Staged mem w schema settled good =
    let sp = wput mem no_bytes schema in
    elim (Bool-cases sp.oom) [
      | inl over ↦ absurd (clash (rw (over) at good))
      | inr fine ↦
          let same : sp.bytes ≡ schema = (wput-Appends mem no_bytes schema).appended fine in
          rw fine (
            subst (λ t. Staged w (stage_frame mem w sp.bytes).1 (frame t)) same
              (stage_frame-Staged mem w sp.bytes settled (rw fine at good)))
    ]
  where
    clash : false ≡ true → ⊥
    clash e = cc

Staged-nil :
    (w w' : Wal)
    → w'.buf ≡ w.buf
    → w'.file ≡ w.file
    → w'.off ≡ w.off
    → head_open w' ≡ false
    → Staged w w' []
Staged-nil w w' b f o h = record {
  appended = b ∙ sym (append-nil w.buf);
  same_file = f;
  same_off = o;
  headed = h;
}

head_for-Staged :
    (mem : Memory) (w : Wal) (s : Option (List ℕ))
    → w.schema ≡ s
    → (head_for mem w s).0 ≡ true
    → Staged w (head_for mem w s).1 (pending_for w s)
unfolding head_for
head_for-Staged mem w none e good = Staged-nil w w refl refl refl (rw e)
head_for-Staged mem w (some schema) e good = elim (Bool-cases w.schema_written) [
  | inl seen ↦ simp seen (Staged-nil w w refl refl refl (ground arith))
  | inr unseen ↦
      let flagged = record w { schema_written = true } in
      elim (Bool-cases (not (w.off == 0) || not (length w.buf == 0))) [
        | inl used ↦ simp (unseen, used) (Staged-nil w flagged refl refl refl (ground arith))
        | inr fresh ↦
            let staged =
              stage_head-Staged mem flagged schema (ground arith) (rw (unseen, fresh) at good) in
            simp (unseen, fresh)
              (record {
                appended = staged.appended;
                same_file = staged.same_file;
                same_off = staged.same_off;
                headed = staged.headed;
              })
      ]
]

-- The head goes first into an empty log, and nowhere else.
pub stage_schema_head-Staged :
    (mem : Memory) (w : Wal)
    → (stage_schema_head mem w).0 ≡ true
    → Staged w (stage_schema_head mem w).1 (pending_head w)
unfolding stage_schema_head
stage_schema_head-Staged mem w good = head_for-Staged mem w w.schema refl good

pub Staged-append :
    {w w' w'' : Wal} {p q : List ℕ} → Staged w w' p → Staged w' w'' q → Staged w w'' (p ++ q)
Staged-append {w} {w'} {w''} {p} {q} a b = record {
  appended = b.appended ∙ ap (λ t. t ++ q) a.appended ∙ append_assoc w.buf p q;
  same_file = b.same_file ∙ a.same_file;
  same_off = b.same_off ∙ a.same_off;
  headed = b.headed;
}

stage_parts :
    (mem : Memory) (w : Wal) (payload : Wbuf)
    → (stage mem w payload).0 ≡ true
    → let (good, headed) = stage_schema_head mem w in
      (payload.oom ≡ false)
      × (good ≡ true)
      × (stage mem w payload ≡ stage_frame mem headed payload.bytes)
unfolding stage
stage_parts mem w payload good = ground arith

-- A successful `stage` adds the frame of the payload behind what was staged, with the schema record
-- in front of it if the log was empty and the schema was set and not yet written.
pub stage-Staged :
    (mem : Memory) (w : Wal) (payload : Wbuf)
    → (stage mem w payload).0 ≡ true
    → (payload.oom ≡ false)
      × Staged w (stage mem w payload).1 (pending_head w ++ frame payload.bytes)
stage-Staged mem w payload good =
    let (fine, head_good, e) = stage_parts mem w payload good in
    let head = stage_schema_head-Staged mem w head_good in
    (
      fine,
      rw e (
          Staged-append head (
            stage_frame-Staged mem (stage_schema_head mem w).1 payload.bytes head.headed
              (rw e at good))),
    )

next_parts :
    (mem : Memory) (w : Wal) (off : ℕ)
    → (wal_next_offset mem w).0 ≡ some off
    → let (good, headed) = stage_schema_head mem w in
      (good ≡ true) × ((wal_next_offset mem w).1 ≡ headed) × (headed.off + length headed.buf ≡ off)
unfolding wal_next_offset
next_parts mem w off answered = ground arith

-- The offset that `wo_wal_next_offset` answers is the offset at which the next successful `stage`
-- puts its record, in a fresh log with a schema too: the frame stands there and ends the batch.
pub next_offset-stage :
    (mem : Memory) (w : Wal) (payload : Wbuf) (off : ℕ)
    → (wal_next_offset mem w).0 ≡ some off
    → (stage mem (wal_next_offset mem w).1 payload).0 ≡ true
    → let w' = (stage mem (wal_next_offset mem w).1 payload).1 in
      (drop (off - w.off) w'.buf ≡ frame payload.bytes)
      × (w'.off ≡ w.off)
      × (w.off + length w.buf ≤ off)
next_offset-stage mem w payload off answered good =
    let (head_good, same, at) = next_parts mem w off answered in
    let headed = (stage_schema_head mem w).1 in
    let head = stage_schema_head-Staged mem w head_good in
    let staged = (stage-Staged mem headed payload (rw same at good)).1 in
    let bytes = frame payload.bytes in
    let grew = ap (λ (t : List ℕ). length t) head.appended in
    let start : off - w.off ≡ length headed.buf = omega (arith, head.same_off) in
    let plain = ap (λ t. t ++ bytes) (no-pending_head headed head.headed) in
    rw same (
      ap₂ drop start (staged.appended ∙ ap (λ t. headed.buf ++ t) plain)
          ∙ drop-length_append (length headed.buf) headed.buf bytes refl,
      staged.same_off ∙ head.same_off,
      omega (arith, grew, length-append w.buf (pending_head w), head.same_off),
    )
