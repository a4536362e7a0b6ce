-- ===== src/Tests/Containers.antt =====
-- Containers on concrete values (runtime/src/cont.c).
use writeonce.Common.{
  ℕ, ◌*◌, ◌≤◌, ◌≡◌, refl, Bool, true, false, some, List, [], ◌∷◌, length, ◌==◌, if◌then◌else◌, ◌⊎◌,
  arith,
}
use writeonce.Engine.{kind_byte}
use writeonce.Containers.{
  Multi, Map, wider, multi_push, multi_get, str_eq, key_eq, key_index, map_find, SetResult,
  replaced, map_set, map_get, map_has,
}
use writeonce.Containers.Lookup.{after_set, IsToldBy, map_get-set}
use writeonce.Containers.Push.{multi_get-push}
use writeonce.Tests.Records.{plenty}

-- Two text objects of the same bytes, and one of others.
abbrev texts : ℕ → List ℕ
texts address = if address == 300 then 98 ∷ [] else 97 ∷ []

abbrev one_key : Map
one_key = record { key_kind = 3; cap = 8; entries = record { key = 100; val = 5 } ∷ [] }

same_bytes :
    map_set texts plenty one_key 200 6
    ≡ (replaced 5, record one_key { entries = record { key = 100; val = 6 } ∷ [] })
unfolding map_set map_find key_index key_eq str_eq kind_byte
same_bytes = refl

has_it : map_has texts one_key 200 ≡ true
unfolding map_has map_find key_index key_eq str_eq kind_byte
has_it = refl

map_get-set_example :
    (r : SetResult texts) × (m' : Map) × (map_set texts plenty one_key 300 6 ≡ (r, m'))
    × (length m'.entries ≤ m'.cap)
    × IsToldBy texts plenty one_key 300 6 r
    × ((j : ℕ) → map_get texts m' j ≡ after_set texts plenty one_key 300 6 r j)
map_get-set_example = map_get-set texts plenty one_key 300 6 (omega arith) (omega arith)

abbrev full_items : Multi
full_items = record { cap = 2; items = 1 ∷ 2 ∷ [] }

multi_get-push_example :
    (good : Bool) × (m' : Multi) × (multi_push plenty full_items 3 ≡ (good, m'))
    × (length m'.items ≤ m'.cap)
    × (((good ≡ false)
          × (m' ≡ full_items)
          × (length full_items.items ≡ full_items.cap)
          × (plenty (wider full_items.cap * 8) ≡ false))
        ⊎ ((good ≡ true)
            × ((idx : ℕ)
                → multi_get m' idx
                  ≡ (if idx == length full_items.items then some 3 else multi_get full_items idx))))
multi_get-push_example = multi_get-push plenty full_items 3 (omega arith) (omega arith)
