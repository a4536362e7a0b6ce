-- ===== src/Containers/Lookup.antt =====
-- What a map gives after a set (runtime/src/cont.c).
use writeonce.Common.{
  ℕ, suc, ◌*◌, ◌^◌, ◌≡◌, ◌≤◌, ◌<◌, refl, ◌∙◌, sym, ap, length-set, length-append, leb, ==→eq, ==→ne,
  arith, false, Option, none, some, List, [], ◌∷◌, ◌++◌, length, get_or, set, ◌==◌, if◌then◌else◌,
  Bool-cases, inl, inr,
}
use writeonce.Wire.{Memory}
use writeonce.Containers.{
  Entry, Map, key_eq, key_index, as_int, map_find, one_on, no_pair, SetResult, no_room, inserted,
  replaced, map_set, val_where, map_get, wider,
}
use writeonce.Containers.Push.{wider-room}
use writeonce.Containers.Keys.{look-set, look-append}

module _ (store : ℕ → List ℕ) (mem : Memory) (m : Map) (k v : ℕ) where
  -- An index of the loop is below the length.
  key_index-below :
      (kind : ℕ) (es : List Entry) (j i : ℕ) → key_index store kind es j ≡ some i → i < length es
  unfolding key_index
  key_index-below kind [] j i e = absurd (clash e)
    where
      clash : ◌≡◌ {A = Option ℕ} none (some i) → ⊥
      clash e = cc
  key_index-below kind (x ∷ xs) j i e = elim (Bool-cases (key_eq store kind x.key j)) [
    | inl here ↦ omega (arith, only (rw here at e))
    | inr there ↦
        by_rest (λ p at. key_index-below kind xs j p at) (key_index store kind xs j) refl
          (rw there at e)
  ]
    where
      only : ◌≡◌ {A = Option ℕ} (some 0) (some i) → 0 ≡ i
      only e = cc

      by_rest :
          ((p : ℕ) → key_index store kind xs j ≡ some p → p < length xs)
          → (o : Option ℕ) → key_index store kind xs j ≡ o
          → one_on store o ≡ some i
          → i < suc (length xs)
      by_rest below none at e = absurd (clash e)
        where
          clash : ◌≡◌ {A = Option ℕ} none (some i) → ⊥
          clash e = cc
      by_rest below (some p) at e = omega (arith, below p at, next e)
        where
          next : ◌≡◌ {A = Option ℕ} (some (suc p)) (some i) → suc p ≡ i
          next e = cc

  -- Up to 2^31 pairs, the conversion to an int is the number itself.
  map_find-key_index :
      (kind : ℕ) (es : List Entry) (j : ℕ)
      → length es ≤ 2 ^ 31
      → map_find store kind es j ≡ key_index store kind es j
  unfolding map_find
  map_find-key_index kind es j few = by_index (key_index store kind es j) refl
    where
      by_index : (o : Option ℕ) → key_index store kind es j ≡ o → as_int store o ≡ o
      by_index none at = refl
      by_index (some i) at =
          let low : leb (2 ^ 31) i ≡ false = ground (arith, key_index-below kind es j i at, few) in
          rw low refl

  -- The lookups after a set, by its result.
  abbrev pub after_set : SetResult store → ℕ → Option ℕ
  after_set no_room j = map_get store m j
  after_set inserted j = if key_eq store m.key_kind k j then some v else map_get store m j
  after_set (replaced old) j = if key_eq store m.key_kind k j then some v else map_get store m j

  -- What the result tells of the key before.
  abbrev pub IsToldBy : SetResult store → Type 0
  IsToldBy no_room =
      (map_get store m k ≡ none) × (length m.entries ≡ m.cap) × (mem (wider m.cap * 8) ≡ false)
  IsToldBy inserted = map_get store m k ≡ none
  IsToldBy (replaced old) = map_get store m k ≡ some old

  -- After a set, a lookup of an equal key gives the new value and every other lookup what it gave
  -- before; the result tells whether the key was there, and hands its old value back. It fails only where
  -- the key is new, the arrays are full and memory is refused, and then nothing has changed. Pairs that fit
  -- the capacity still do, up to 2^31 of them.
  pub map_get-set :
      length m.entries ≤ m.cap
      → m.cap < 2 ^ 31
      → (r : SetResult store) × (m' : Map) × (map_set store mem m k v ≡ (r, m'))
        × (length m'.entries ≤ m'.cap)
        × IsToldBy r
        × ((j : ℕ) → map_get store m' j ≡ after_set r j)
  unfolding map_set map_get
  map_get-set fits small = by_find (map_find store m.key_kind m.entries k) refl
    where
      grown : Map → Map
      grown m = record m { entries = m.entries ++ (record { key = k; val = v } ∷ []) }

      here :
          (j : ℕ) → map_find store m.key_kind m.entries j ≡ key_index store m.key_kind m.entries j
      here j = map_find-key_index m.key_kind m.entries j (omega (arith, fits, small))

      longer : length (grown m).entries ≡ suc (length m.entries)
      longer = omega (arith, length-append m.entries (record { key = k; val = v } ∷ []))

      added :
          map_find store m.key_kind m.entries k ≡ none
          → (j : ℕ)
          → val_where store (grown m).entries (map_find store m.key_kind (grown m).entries j)
            ≡ (if key_eq store m.key_kind k j then some v else map_get store m j)
      added e j =
          ap (val_where store (grown m).entries)
            (map_find-key_index m.key_kind (grown m).entries j (omega (arith, longer, fits, small)))
          ∙ look-append store m.key_kind m.entries k v j (sym (here k) ∙ e)
          ∙ ap (λ o. if key_eq store m.key_kind k j then some v else val_where store m.entries o)
              (sym (here j))

      by_find :
          (f : Option ℕ)
          → map_find store m.key_kind m.entries k ≡ f
          → (r : SetResult store) × (m' : Map) × (map_set store mem m k v ≡ (r, m'))
            × (length m'.entries ≤ m'.cap)
            × IsToldBy r
            × ((j : ℕ) → map_get store m' j ≡ after_set r j)
      by_find (some i) e = (
        replaced (get_or m.entries i (no_pair store)).val,
        record m {
          entries = set m.entries i (record (get_or m.entries i (no_pair store)) { val = v });
        },
        rw (e, map_set) refl,
        omega (
          arith,
          fits,
          length-set m.entries i (record (get_or m.entries i (no_pair store)) { val = v }),
        ),
        ap (val_where store m.entries) e,
        λ j.
            ap
              (val_where store
                (set m.entries i (record (get_or m.entries i (no_pair store)) { val = v })))
              (map_find-key_index m.key_kind
                (set m.entries i (record (get_or m.entries i (no_pair store)) { val = v })) j
                (omega (
                  arith,
                  fits,
                  small,
                  length-set m.entries i (record (get_or m.entries i (no_pair store)) { val = v }),
                )))
            ∙ look-set store m.key_kind m.entries k v i j (sym (here k) ∙ e)
            ∙ ap (λ o. if key_eq store m.key_kind k j then some v else val_where store m.entries o)
                (sym (here j)),
      )
      by_find none e = elim (Bool-cases (length m.entries == m.cap)) [
        | inr room ↦ (
          inserted,
          grown m,
          rw (e, map_set) (rw room refl),
          omega (arith, fits, longer, ==→ne (length m.entries) m.cap room),
          ap (val_where store m.entries) e,
          added e,
        )
        | inl full ↦ elim (Bool-cases (mem (wider m.cap * 8))) [
          | inl granted ↦ (
            inserted,
            record (grown m) { cap = wider m.cap },
            rw (e, map_set) (rw (full, granted) refl),
            wider-room m.cap (length (grown m).entries) small (omega (arith, longer, fits)),
            ap (val_where store m.entries) e,
            added e,
          )
          | inr denied ↦ (
            no_room,
            m,
            rw (e, map_set) (rw (full, denied) refl),
            fits,
            (ap (val_where store m.entries) e, ==→eq (length m.entries) m.cap full, denied),
            λ j. refl,
          )
        ]
      ]
