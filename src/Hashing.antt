-- ===== src/Hashing.antt =====
-- The hash of the indexed columns of a row (database/src/table.c). A text column has its bytes or
-- nil; another column is a word.
use writeonce.Common.{
  ℕ, ◌+◌, ◌*◌, ◌/◌, ◌%◌, ◌^◌, ◌≡◌, ◌≢◌, refl, ap, Bool, not, ◌&&◌, Option, none, some, List, [],
  ◌∷◌, bit_xor, ◌==◌, if◌then◌else◌, arith,
}
use writeonce.Engine.{Kind, scalar, owned, gcref, text, multi, map, float, bytes}
use writeonce.IdHash.{hmix}

pub data Column : Type 0 where
  word : ℕ → Column
  text_of : Option (List ℕ) → Column

-- d != d for the double with these bits.
abbrev pub is_nan : ℕ → Bool
is_nan bits = bits / 2 ^ 52 % 2 ^ 11 == 2047 && not (bits % 2 ^ 52 == 0)

unfoldable pub idx_float_key : ℕ → ℕ
idx_float_key bits =
    if is_nan bits then 0x7FF8000000000000 else if bits % 2 ^ 63 == 0 then 0 else bits

-- FNV-1a over bytes.
unfoldable pub fnv : ℕ → List ℕ → ℕ
fnv th [] = th
fnv th (b ∷ bs) = fnv (bit_xor th b * 1099511628211 % 2 ^ 64) bs

-- The text of a column, and its word.
abbrev pub bytes_in : Column → Option (List ℕ)
bytes_in (word w) = none
bytes_in (text_of t) = t

abbrev pub word_in : Column → ℕ
word_in (word w) = w
word_in (text_of t) = 0

unfoldable pub column_value : Kind → Column → ℕ
unfolding idx_float_key fnv
column_value text v = elim (bytes_in v) [ none ↦ 0 | some bs ↦ fnv 1469598103934665603 bs ]
column_value float v = idx_float_key (word_in v)
column_value other v = word_in v

-- h ? h : 1
abbrev pub not_zero : ℕ → ℕ
not_zero h = if h == 0 then 1 else h

unfoldable pub idx_loop : (ℕ → Kind) → (ℕ → Column) → List ℕ → ℕ → ℕ → ℕ
unfolding column_value hmix
idx_loop kinds row [] i h = h
idx_loop kinds row (col ∷ cols) i h =
    idx_loop kinds row cols (i + 1)
      (bit_xor h (hmix ((column_value (kinds col) (row col) + i) % 2 ^ 64)))

unfoldable pub idx_hash : (ℕ → Kind) → List ℕ → (ℕ → Column) → ℕ
unfolding idx_loop
idx_hash kinds cols row = not_zero (idx_loop kinds row cols 0 0x9e3779b97f4a7c15)

unfoldable pub key1_value : Kind → ℕ → Option (List ℕ) → ℕ
unfolding idx_float_key fnv
key1_value text key_scalar none = 0
key1_value text key_scalar (some bs) = fnv 1469598103934665603 bs
key1_value float key_scalar key_bytes = idx_float_key key_scalar
key1_value other key_scalar key_bytes = key_scalar

unfoldable pub idx_hash_key1 : Kind → ℕ → Option (List ℕ) → ℕ
unfolding key1_value hmix
idx_hash_key1 kind key_scalar key_bytes =
    not_zero
      (bit_xor 0x9e3779b97f4a7c15 (hmix ((key1_value kind key_scalar key_bytes + 0) % 2 ^ 64)))

column_value-key1_value :
    (kind : Kind) (v : Column) → column_value kind v ≡ key1_value kind (word_in v) (bytes_in v)
unfolding column_value key1_value
column_value-key1_value scalar v = refl
column_value-key1_value owned v = refl
column_value-key1_value gcref v = refl
column_value-key1_value text (word w) = refl
column_value-key1_value text (text_of none) = refl
column_value-key1_value text (text_of (some bs)) = refl
column_value-key1_value multi v = refl
column_value-key1_value map v = refl
column_value-key1_value float v = refl
column_value-key1_value bytes v = refl

pub not_zero-ne : (h : ℕ) → not_zero h ≢ 0
not_zero-ne h = ground arith

-- A probe with one key looks in the bucket where the rows with that value of the column are, for every
-- kind of column: the hash of the key is the hash of the row; and it is not 0, which marks an empty
-- bucket.
pub idx_hash-idx_hash_key1 :
    (kinds : ℕ → Kind) (col : ℕ) (row : ℕ → Column)
    → (idx_hash kinds (col ∷ []) row
        ≡ idx_hash_key1 (kinds col) (word_in (row col)) (bytes_in (row col)))
      × (idx_hash kinds (col ∷ []) row ≢ 0)
unfolding idx_hash idx_hash_key1 idx_loop
idx_hash-idx_hash_key1 kinds col row = (
  ap (λ v. not_zero (bit_xor 0x9e3779b97f4a7c15 (hmix ((v + 0) % 2 ^ 64))))
      (column_value-key1_value (kinds col) (row col)),
  not_zero-ne (idx_loop kinds row (col ∷ []) 0 0x9e3779b97f4a7c15),
)
