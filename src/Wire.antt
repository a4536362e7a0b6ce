-- ===== src/Wire.antt =====
-- The byte buffers of the write-ahead log (database/src/wal.c): the growing write buffer `wbuf`,
-- the bounds-checked reader `rbuf`, and the fixed-width integers that both exchange.
-- The bytes of an integer lie lowest first, as memcpy lays them on the x86-64 hosts supported.
pub mod Integers
pub mod Appending
pub mod Reading
use writeonce.Common.{
  ℕ, zero, suc, ◌+◌, ◌*◌, ◌/◌, ◌%◌, ◌^◌, ◌≤◌, ◌≡◌, Bool, true, false, ◌||◌, Option, none, some,
  List, [], ◌∷◌, ◌++◌, length, take, drop, ltb, ◌==◌, if◌then◌else◌,
}

-- The answers of malloc and realloc, by size in bytes: the allocator is the C library's.
abbrev pub Memory : Type 0
Memory = ℕ → Bool

-- No request of 2^29 bytes or more is granted.
abbrev pub IsCapped : Memory → Type 0
IsCapped mem = (n : ℕ) → 2 ^ 29 ≤ n → mem n ≡ false

-- `n` bytes of an integer as memcpy from its address gives them.
unfoldable pub le_bytes : ℕ → ℕ → List ℕ
le_bytes zero v = []
le_bytes (suc n) v = (v % 256) ∷ le_bytes n (v / 256)

-- The integer that memcpy of these bytes into a zeroed variable makes.
unfoldable pub le_value : List ℕ → ℕ
le_value [] = 0
le_value (b ∷ bs) = b + 256 * le_value bs

-- `len` is the length of `bytes`.
pub record Wbuf : Type 0 where
  pub bytes : List ℕ
  pub cap : ℕ
  pub oom : Bool

abbrev pub no_bytes : Wbuf
no_bytes = record { bytes = []; cap = 0; oom = false }

-- while (nc < need) nc *= 2, on fuel.
unfoldable pub double_until : ℕ → ℕ → ℕ → ℕ
double_until zero nc need = nc
double_until (suc fuel) nc need =
    let wider = double_until fuel (nc * 2) need in if ltb nc need then wider else nc

-- The capacity that a full buffer of capacity `cap` grows to; `first` is that of an empty one.
unfoldable pub grown : ℕ → ℕ → ℕ → ℕ
unfolding double_until
grown first cap need = double_until need (if cap == 0 then first else cap * 2) need

unfoldable pub wput : Memory → Wbuf → List ℕ → Wbuf
unfolding grown
wput mem w p =
    let need = length w.bytes + length p in
    let nc = grown 256 w.cap need in
    if w.oom
    then w
    else if ltb w.cap need
    then if mem nc
      then record { bytes = w.bytes ++ p; cap = nc; oom = false }
      else record w { oom = true }
    else record w { bytes = w.bytes ++ p }

unfoldable pub wput_u8 : Memory → Wbuf → ℕ → Wbuf
unfolding wput le_bytes
wput_u8 mem w v = wput mem w (le_bytes 1 v)

unfoldable pub wput_u32 : Memory → Wbuf → ℕ → Wbuf
unfolding wput le_bytes
wput_u32 mem w v = wput mem w (le_bytes 4 v)

unfoldable pub wput_u64 : Memory → Wbuf → ℕ → Wbuf
unfolding wput le_bytes
wput_u64 mem w v = wput mem w (le_bytes 8 v)

-- `rest` is what lies between `p` and `end`.
pub record Rbuf : Type 0 where
  pub rest : List ℕ
  pub bad : Bool

abbrev pub reader : List ℕ → Rbuf
reader bs = record { rest = bs; bad = false }

-- `none` where the source returns -1 and leaves the output alone.
unfoldable pub rtake : Rbuf → ℕ → Option (List ℕ) × Rbuf
rtake r n =
    if r.bad || ltb (length r.rest) n
    then (none, record r { bad = true })
    else (some (take n r.rest), record r { rest = drop n r.rest })

-- The output variable of a read holds 0 before it.
unfoldable pub or_zero : Option (List ℕ) → ℕ
unfolding le_value
or_zero none = 0
or_zero (some bs) = le_value bs

unfoldable pub read_int : ℕ → Rbuf → ℕ × Rbuf
unfolding rtake or_zero
read_int n r = let (taken, r') = rtake r n in (or_zero taken, r')

unfoldable pub rd_u8 : Rbuf → ℕ × Rbuf
unfolding read_int
rd_u8 r = read_int 1 r

unfoldable pub rd_u32 : Rbuf → ℕ × Rbuf
unfolding read_int
rd_u32 r = read_int 4 r

unfoldable pub rd_u64 : Rbuf → ℕ × Rbuf
unfolding read_int
rd_u64 r = read_int 8 r
