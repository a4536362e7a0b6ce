-- ===== src/Policy.antt =====
-- When a log is compacted (`wo_wal_should_compact` of database/src/wal.c).
use writeonce.Common.{
  ℕ, ◌+◌, ◌-◌, ◌*◌, ◌%◌, ◌^◌, ◌≤◌, ◌≡◌, ◌≢◌, Bool, true, false, ltb, leb, ◌==◌, if◌then◌else◌,
  arith,
}

-- WO_CKPT_ABS_BYTES
abbrev pub abs_bytes : ℕ
abs_bytes = 64 * 1024 * 1024

-- The product of the last line wraps at 64 bits.
unfoldable pub should_compact : ℕ → ℕ → ℕ → ℕ → Bool
should_compact used last floor ratio =
    let garbage = if ltb last used then used - last else 0 in
    if ltb used floor
    then false
    else if last == 0
    then true
    else if ratio == 0
    then false
    else if leb abs_bytes garbage
    then true
    else ltb (last * ratio % 2 ^ 64) used

-- A log that is due for compaction stays due as it grows.
pub should_compact-grows :
    (used last floor ratio more : ℕ)
    → should_compact used last floor ratio ≡ true
    → should_compact (used + more) last floor ratio ≡ true
unfolding should_compact
should_compact-grows used last floor ratio more due = ground arith

-- With a ratio above zero, a log is due at the latest when it has passed the floor and holds
-- WO_CKPT_ABS_BYTES more than after the last compaction.
pub should_compact-capped :
    (used last floor ratio : ℕ)
    → floor ≤ used
    → ratio ≢ 0
    → last + abs_bytes ≤ used
    → should_compact used last floor ratio ≡ true
unfolding should_compact
should_compact-capped used last floor ratio past some_ratio grown = ground arith
