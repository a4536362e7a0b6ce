-- ===== src/Crc.antt =====
-- The checksum of a log record: the reflected CRC-32 of database/src/wal.c (`crc32_init`, `crc32`;
-- runtime/wo-rt.c has the same code). The flag `crc_ready` only delays the building of the table,
-- whose contents do not depend on when that is.
pub mod Reference
pub mod Detection
use writeonce.Common.{
  ℕ, zero, suc, ◌+◌, ◌/◌, ◌^◌, List, [], ◌∷◌, get_or, bit_and, bit_xor, ◌==◌, if◌then◌else◌,
}

abbrev pub poly : ℕ
poly = 0xEDB88320

-- c = (c & 1) ? poly ^ (c >> 1) : c >> 1
unfoldable pub shift_out : ℕ → ℕ
shift_out c = if bit_and c 1 == 0 then c / 2 else bit_xor poly (c / 2)

-- `k` rounds of the inner loop of `crc32_init`.
unfoldable pub shift_rounds : ℕ → ℕ → ℕ
unfolding shift_out
shift_rounds zero c = c
shift_rounds (suc k) c = shift_rounds k (shift_out c)

-- `n` entries of the table, from index `i` on.
entries_from : ℕ → ℕ → List ℕ
unfolding shift_rounds
entries_from zero i = []
entries_from (suc n) i = shift_rounds 8 i ∷ entries_from n (i + 1)

pub crc_table : List ℕ
unfolding entries_from
crc_table = entries_from 256 0

-- c = crc_table[(c ^ *p++) & 0xFF] ^ (c >> 8)
unfoldable pub crc_byte : ℕ → ℕ → ℕ
unfolding crc_table
crc_byte c b = bit_xor (get_or crc_table (bit_and (bit_xor c b) 0xFF) 0) (c / 2 ^ 8)

unfoldable pub crc_loop : ℕ → List ℕ → ℕ
unfolding crc_byte
crc_loop c [] = c
crc_loop c (b ∷ bs) = crc_loop (crc_byte c b) bs

unfoldable pub crc32 : List ℕ → ℕ
unfolding crc_loop
crc32 bs = bit_xor (crc_loop 0xFFFFFFFF bs) 0xFFFFFFFF
