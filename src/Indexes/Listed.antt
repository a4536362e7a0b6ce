-- ===== src/Indexes/Listed.antt =====
-- The ids of a bucket as a multiset (`idx_add_row` and `idx_remove_row` of database/src/table.c).
use writeonce.Common.{
  ◌≤◌, length-take, ℕ, zero, suc, ◌+◌, ◌-◌, ◌<◌, ◌≡◌, ◌≢◌, refl, ◌∙◌, sym, ap, Bool, true, false,
  Option, none, some, List, [], ◌∷◌, ◌++◌, length, get_or, set, take, ◌==◌, if◌then◌else◌,
  length-set, get_or-set_self, get_or-set_ne, eq-cases, eq→==, ne→==, inl, inr, arith,
}
use writeonce.Indexes.{place_of, swap_out}

-- A Boolean as a number.
abbrev pub one : Bool → ℕ
one false = 0
one true = 1

-- How often an id stands in a list.
abbrev pub occurs : ℕ → List ℕ → ℕ
occurs j [] = 0
occurs j (i ∷ is) = one (i == j) + occurs j is

pub occurs-append : (j : ℕ) (xs ys : List ℕ) → occurs j (xs ++ ys) ≡ occurs j xs + occurs j ys
occurs-append j [] ys = omega arith
occurs-append j (x ∷ xs) ys = omega (arith, occurs-append j xs ys)

occurs-set :
    (j a : ℕ) (xs : List ℕ) (i : ℕ)
    → i < length xs
    → occurs j (set xs i a) + one (get_or xs i 0 == j) ≡ occurs j xs + one (a == j)
occurs-set j a [] i low = absurd (omega (arith, low))
occurs-set j a (x ∷ xs) zero low = omega arith
occurs-set j a (x ∷ xs) (suc i) low = omega (arith, occurs-set j a xs i (omega (arith, low)))

occurs-take :
    (j n : ℕ) (xs : List ℕ)
    → length xs ≡ suc n
    → occurs j (take n xs) + one (get_or xs n 0 == j) ≡ occurs j xs
occurs-take j n [] e = absurd (omega (arith, e))
occurs-take j zero (x ∷ []) e = omega arith
occurs-take j zero (x ∷ y ∷ ys) e = absurd (omega (arith, e))
occurs-take j (suc n) (x ∷ xs) e = omega (arith, occurs-take j n xs (omega (arith, e)))

-- The place of an id, or that there is none.
abbrev IsPlace : ℕ → ℕ → List ℕ → Option ℕ → Type 0
IsPlace id i ids none = occurs id ids ≡ 0
IsPlace id i ids (some p) = (k : ℕ) × (p ≡ i + k) × (k < length ids) × (get_or ids k 0 ≡ id)

later :
    (id i j : ℕ) (ids : List ℕ) (o : Option ℕ)
    → j ≢ id
    → IsPlace id (i + 1) ids o
    → IsPlace id i (j ∷ ids) o
later id i j ids none other h = rw (ne→== j id other) (omega (arith, h))
later id i j ids (some p) other (k, at, low, is) =
    (suc k, omega (arith, at), omega (arith, low), is)

place_of-IsPlace : (id i : ℕ) (ids : List ℕ) → IsPlace id i ids (place_of id i ids)
unfolding place_of
place_of-IsPlace id i [] = refl
place_of-IsPlace id i (j ∷ js) = elim (eq-cases j id) [
  | inl same ↦ rw (eq→== j id same) (0, omega arith, omega arith, same)
  | inr other ↦
      rw (ne→== j id other)
        (later id i j js (place_of id (i + 1) js) other (place_of-IsPlace id (i + 1) js))
]

-- The last id takes the place of the one that goes, in the same list or alone.
last_stays :
    (xs : List ℕ) (i n : ℕ)
    → i < length xs
    → length xs ≡ suc n
    → get_or (set xs i (get_or xs n 0)) n 0 ≡ get_or xs n 0
last_stays xs i n low e = elim (eq-cases i n) [
  | inl same ↦
      ap (λ k. get_or (set xs i (get_or xs n 0)) k 0) (sym same)
      ∙ get_or-set_self xs i (get_or xs n 0) 0 low
  | inr other ↦ get_or-set_ne xs i n (get_or xs n 0) 0 other
]

swapped :
    (id j i n : ℕ) (xs : List ℕ)
    → i < length xs
    → length xs ≡ suc n
    → get_or xs i 0 ≡ id
    → occurs j (take n (set xs i (get_or xs n 0))) + one (id == j) ≡ occurs j xs
swapped id j i n xs low e is =
    let l = get_or xs n 0 in
    let a = occurs-set j l xs i low in
    let b = occurs-take j n (set xs i l) (length-set xs i l ∙ e) in
    let c = ap (λ v. one (v == j)) (last_stays xs i n low e) in
    let d = ap (λ v. one (v == j)) is in omega (arith, a, b, c, d)

-- One id goes once, if it is there; the others stay as often as they were there.
-- No id is added.
pub length-swap_out : (id : ℕ) (ids : List ℕ) → length (swap_out id ids) ≤ length ids
unfolding swap_out
length-swap_out id ids = by_place (place_of id 0 ids)
  where
    by_place :
        (o : Option ℕ)
        → length (elim o [
          | none ↦ ids
          | some i ↦ take (length ids - 1) (set ids i (get_or ids (length ids - 1) 0))
        ])
          ≤ length ids
    by_place none = omega arith
    by_place (some i) =
        let moved = set ids i (get_or ids (length ids - 1) 0) in
        omega (
          arith,
          length-take (length ids - 1) moved,
          length-set ids i (get_or ids (length ids - 1) 0),
        )

pub occurs-swap_out :
    (id j : ℕ) (ids : List ℕ)
    → occurs j (swap_out id ids) ≡ (if j == id then occurs j ids - 1 else occurs j ids)
unfolding swap_out
occurs-swap_out id j ids = by_place (place_of id 0 ids) (place_of-IsPlace id 0 ids)
  where
    by_place :
        (o : Option ℕ)
        → IsPlace id 0 ids o
        → occurs j (elim o [
          | none ↦ ids
          | some i ↦ take (length ids - 1) (set ids i (get_or ids (length ids - 1) 0))
        ])
          ≡ (if j == id then occurs j ids - 1 else occurs j ids)
    by_place none gone = elim (eq-cases j id) [
      | inl same ↦ rw (eq→== j id same) (omega (arith, gone, ap (λ v. occurs v ids) same))
      | inr other ↦ rw (ne→== j id other) refl
    ]
    by_place (some p) (k, at, low, is) =
        let here : p ≡ k = omega (arith, at) in
        let n = length ids - 1 in
        let s =
          swapped id j p n ids (omega (arith, low, at)) (omega (arith, low))
            (ap (λ v. get_or ids v 0) here ∙ is) in
        elim (eq-cases j id) [
          | inl same ↦ rw (eq→== j id same) (omega (arith, s, ap one (eq→== id j (sym same))))
          | inr other ↦
              rw (ne→== j id other) (omega (arith, s, ap one (ne→== id j (λ e. other (sym e)))))
        ]
