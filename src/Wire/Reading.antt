-- ===== src/Wire/Reading.antt =====
-- Reads from an `rbuf` (`rtake` and `rd_*` of database/src/wal.c).
use writeonce.Common.{
  ℕ, ◌^◌, ◌<◌, ◌≡◌, some, List, ◌++◌, length, length-append, take-length_append, drop-length_append,
  le→ltb, arith,
}
use writeonce.Wire.{reader, le_bytes, rtake, read_int, rd_u8, rd_u32, rd_u64, or_zero}
use writeonce.Wire.Integers.{length-le_bytes, le_value-le_bytes}

pub rtake-append :
    (n : ℕ) (p rest : List ℕ) → length p ≡ n → rtake (reader (p ++ rest)) n ≡ (some p, reader rest)
unfolding rtake
rtake-append n p rest e = rw (
  le→ltb (length (p ++ rest)) n (omega (arith, length-append p rest)),
  take-length_append n p rest e,
  drop-length_append n p rest e,
)

read_int-append :
    (n v : ℕ) (rest : List ℕ)
    → v < 256 ^ n
    → read_int n (reader (le_bytes n v ++ rest)) ≡ (v, reader rest)
unfolding read_int or_zero
read_int-append n v rest h =
    rw (rtake-append n (le_bytes n v) rest (length-le_bytes n v), le_value-le_bytes n v h)

pub rd_u8-append :
    (v : ℕ) (rest : List ℕ) → v < 2 ^ 8 → rd_u8 (reader (le_bytes 1 v ++ rest)) ≡ (v, reader rest)
unfolding rd_u8
rd_u8-append v rest h = read_int-append 1 v rest h

pub rd_u32-append :
    (v : ℕ) (rest : List ℕ) → v < 2 ^ 32 → rd_u32 (reader (le_bytes 4 v ++ rest)) ≡ (v, reader rest)
unfolding rd_u32
rd_u32-append v rest h = read_int-append 4 v rest h

pub rd_u64-append :
    (v : ℕ) (rest : List ℕ) → v < 2 ^ 64 → rd_u64 (reader (le_bytes 8 v ++ rest)) ≡ (v, reader rest)
unfolding rd_u64
rd_u64-append v rest h = read_int-append 8 v rest h
