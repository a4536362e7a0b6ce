-- ===== src/Slots.antt =====
-- The slabs of a table: the slots of its rows, their bitmap and the list of free ones
-- (database/src/table.c). The slabs are one list of rows and one of bits, in the order of the slots; a
-- new slab holds rows of no meaning. The list of free slots has its top first, and the
-- numbers of the slots have 32 bits.
pub mod Sound
pub mod Use
use writeonce.Common.{
  ℕ, zero, suc, ◌+◌, ◌*◌, ◌/◌, ◌%◌, ◌^◌, take, Bool, true, false, not, Option, none, some, List, [],
  ◌∷◌, ◌++◌, length, get_or, set, replicate, ltb, ◌==◌, if◌then◌else◌,
}
use writeonce.Wire.{Memory}
use writeonce.Engine.{Values, done}

-- The header of a row is its id here; the class is that of the table, and the flags are 0.
pub record Row : Type 0 where
  pub id : ℕ
  pub slots : Values

abbrev pub no_row : Row
no_row = record { id = 0; slots = done }

pub record Slots : Type 0 where
  pub rows : List Row
  pub bits : List Bool
  pub slab_cap : ℕ
  pub free_slots : List ℕ
  pub free_cap : ℕ

-- DB_SLAB_ROWS
abbrev pub slab_rows : ℕ
slab_rows = 256

abbrev pub no_slots : Slots
no_slots = record { rows = []; bits = []; slab_cap = 0; free_slots = []; free_cap = 0 }

abbrev pub row_at : Slots → ℕ → Row
row_at s g = get_or s.rows g no_row

abbrev pub bit_at : Slots → ℕ → Bool
bit_at s g = get_or s.bits g false

-- The scan of bits of the bitmap, from the slot `g` on.
unfoldable pub first_clear : ℕ → List Bool → Option ℕ
first_clear g [] = none
first_clear g (true ∷ bs) = first_clear (g + 1) bs
first_clear g (false ∷ bs) = some g

abbrev pub slab_cnt : Slots → ℕ
slab_cnt s = length s.bits / slab_rows

-- The slab array is enlarged where it is full; `none` without memory.
unfoldable pub grow_slab_array : Memory → Slots → Option Slots
grow_slab_array mem s =
    let ncap = if s.slab_cap == 0 then 4 else s.slab_cap * 2 % 2 ^ 32 in
    if slab_cnt s == s.slab_cap
    then if mem (ncap * 8) then some (record s { slab_cap = ncap }) else none
    else some s

-- A slab and its words of the bitmap are added.
unfoldable pub add_slab : Memory → ℕ → Slots → Option ℕ × Slots
add_slab mem row_size s =
    if not (mem (slab_rows * row_size))
    then (none, s)
    else if not (mem (((slab_cnt s + 1) * slab_rows + 63) / 64 * 8))
    then (none, s)
    else (
      some (slab_cnt s * slab_rows % 2 ^ 32),
      record s {
        rows = s.rows ++ replicate slab_rows no_row;
        bits = s.bits ++ replicate slab_rows false;
      },
    )

-- The slot where the bitmap has none, and the slot where the list has none.
unfoldable pub grow_slabs : Memory → ℕ → Slots → Option ℕ × Slots
unfolding grow_slab_array add_slab
grow_slabs mem row_size s = elim (grow_slab_array mem s) [
  | none ↦ (none, s)
  | some s' ↦ add_slab mem row_size s'
]

unfoldable pub scan_slots : Memory → ℕ → Slots → Option ℕ → Option ℕ × Slots
unfolding grow_slabs
scan_slots mem row_size s none = grow_slabs mem row_size s
scan_slots mem row_size s (some g) = (some g, s)

unfoldable pub pop_slot : Memory → ℕ → Slots → List ℕ → Option ℕ × Slots
unfolding first_clear scan_slots
pop_slot mem row_size s (g ∷ gs) = (some g, record s { free_slots = gs })
pop_slot mem row_size s [] =
    scan_slots mem row_size s (first_clear 0 (take (slab_cnt s * slab_rows % 2 ^ 32) s.bits))

-- The slot for a new row; `none` for UINT32_MAX.
unfoldable pub slot_alloc : Memory → ℕ → Slots → Option ℕ × Slots
unfolding pop_slot
slot_alloc mem row_size s = pop_slot mem row_size s s.free_slots

abbrev pub put_row : Slots → ℕ → Row → Slots
put_row s g r = record s { rows = set s.rows g r }

abbrev pub mark_bit : Slots → ℕ → Bool → Slots
mark_bit s g b = record s { bits = set s.bits g b }

-- The end of `wo_row_remove`: the list is enlarged where it is full.
unfoldable pub recycle : Memory → Slots → ℕ → Slots
recycle mem s g =
    let ncap = if s.free_cap == 0 then 16 else s.free_cap * 2 in
    if length s.free_slots == s.free_cap
    then if mem (ncap * 4) then record s { free_slots = g ∷ s.free_slots; free_cap = ncap } else s
    else record s { free_slots = g ∷ s.free_slots }

-- if (t->free_cnt < t->free_cap) t->free_slots[t->free_cnt++] = g;
unfoldable pub recycle_in_room : Slots → ℕ → Slots
recycle_in_room s g =
    if ltb (length s.free_slots) s.free_cap then record s { free_slots = g ∷ s.free_slots } else s
