-- ===== src/Containers.antt =====
-- The containers of the runtime, `multi` and `map` (runtime/src/cont.c): lists of register words.
-- `text` is the store: the bytes of the text object at an address. The counts of the structs are
-- the lengths of the lists, and the parallel arrays of a map are one list.
pub mod Keys
pub mod Lookup
pub mod Push
use writeonce.Common.{
  ℕ, zero, suc, ◌+◌, ◌*◌, ◌%◌, ◌^◌, Bool, true, false, ◌&&◌, Option, none, some, List, [], ◌∷◌,
  ◌++◌, length, get_or, get_elem?, set, leb, ◌==◌, if◌then◌else◌,
}
use writeonce.Wire.{Memory}
use writeonce.Engine.{kind_byte, text}

pub record Multi : Type 0 where
  pub cap : ℕ
  pub items : List ℕ

pub record Entry : Type 0 where
  pub key : ℕ
  pub val : ℕ

pub record Map : Type 0 where
  pub key_kind : ℕ
  pub cap : ℕ
  pub entries : List Entry

-- The capacity after a full one; it has 32 bits.
abbrev pub wider : ℕ → ℕ
wider cap = if cap == 0 then 8 else cap * 2 % 2 ^ 32

-- The Boolean is `true` for the result 0.
unfoldable pub multi_push : Memory → Multi → ℕ → Bool × Multi
multi_push mem m v =
    let nm : Multi = record m { items = m.items ++ (v ∷ []) } in
    if length m.items == m.cap
    then if mem (wider m.cap * 8) then (true, record nm { cap = wider m.cap }) else (false, m)
    else (true, nm)

-- `none` for -1.
unfoldable pub multi_get : Multi → ℕ → Option ℕ
multi_get m idx = if leb (length m.items) idx then none else some (get_or m.items idx 0)

unfoldable pub str_eq : List ℕ → List ℕ → Bool
str_eq [] [] = true
str_eq [] (b ∷ bs) = false
str_eq (a ∷ rest) [] = false
str_eq (a ∷ rest) (b ∷ bs) = a == b && str_eq rest bs

module _ (store : ℕ → List ℕ) where
  unfoldable pub key_eq : ℕ → ℕ → ℕ → Bool
  unfolding str_eq
  key_eq kind a b = if kind == kind_byte text then str_eq (store a) (store b) else a == b

  abbrev pub one_on : Option ℕ → Option ℕ
  one_on none = none
  one_on (some i) = some (suc i)

  -- The loop of `map_find`; `none` for -1.
  unfoldable pub key_index : ℕ → List Entry → ℕ → Option ℕ
  unfolding key_eq
  key_index kind [] k = none
  key_index kind (e ∷ es) k = if key_eq kind e.key k then some 0 else one_on (key_index kind es k)

  -- (int)i; the callers take every negative number for -1.
  abbrev pub as_int : Option ℕ → Option ℕ
  as_int none = none
  as_int (some i) = if leb (2 ^ 31) i then none else some i

  unfoldable pub map_find : ℕ → List Entry → ℕ → Option ℕ
  unfolding key_index
  map_find kind es k = as_int (key_index kind es k)

  abbrev pub no_pair : Entry
  no_pair = record { key = 0; val = 0 }

  -- The results -1, 0 and 1, the last with the old value.
  pub data SetResult : Type 0 where
    no_room : SetResult
    inserted : SetResult
    replaced : ℕ → SetResult

  unfoldable pub map_set : Memory → Map → ℕ → ℕ → SetResult × Map
  unfolding map_find
  map_set mem m k v = elim (map_find m.key_kind m.entries k) [
    | some i ↦
        let e = get_or m.entries i no_pair in
        (replaced e.val, record m { entries = set m.entries i (record e { val = v }) })
    | none ↦
        let nm : Map = record m { entries = m.entries ++ (record { key = k; val = v } ∷ []) } in
        if length m.entries == m.cap
        then if mem (wider m.cap * 8)
          then (inserted, record nm { cap = wider m.cap })
          else (no_room, m)
        else (inserted, nm)
  ]

  abbrev pub val_where : List Entry → Option ℕ → Option ℕ
  val_where es none = none
  val_where es (some i) = some (get_or es i no_pair).val

  unfoldable pub map_get : Map → ℕ → Option ℕ
  unfolding map_find
  map_get m k = val_where m.entries (map_find m.key_kind m.entries k)

  unfoldable pub map_has : Map → ℕ → Bool
  unfolding map_find
  map_has m k = elim (map_find m.key_kind m.entries k) [ none ↦ false | some i ↦ true ]
