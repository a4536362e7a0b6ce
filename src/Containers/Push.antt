-- ===== src/Containers/Push.antt =====
-- What a multi gives after a push, and that both containers stay inside their arrays
-- (runtime/src/cont.c).
use writeonce.Common.{
  ℕ, zero, suc, ◌*◌, ◌^◌, ◌≤◌, ◌<◌, ◌≡◌, refl, ◌∙◌, ap, Bool, true, false, none, some, List, [],
  ◌∷◌, ◌++◌, length, length-append, get_or, leb, ◌==◌, if◌then◌else◌, Bool-cases, eq-cases, ==→eq,
  ==→ne, eq→==, ne→==, ◌⊎◌, inl, inr, arith,
}
use writeonce.Wire.{Memory}
use writeonce.Containers.{Multi, wider, multi_push, multi_get}

get_or-last :
    (xs : List ℕ) (v i : ℕ)
    → i ≤ length xs
    → get_or (xs ++ (v ∷ [])) i 0 ≡ (if i == length xs then v else get_or xs i 0)
get_or-last [] v zero h = refl
get_or-last [] v (suc i) h = absurd (omega (arith, h))
get_or-last (x ∷ xs) v zero h = rw (ne→== 0 (suc (length xs)) (λ e. absurd (omega (arith, e)))) refl
get_or-last (x ∷ xs) v (suc i) h =
    get_or-last xs v i (omega (arith, h))
    ∙ ap (λ t. if t then v else get_or xs i 0) (same_test i (length xs))
  where
    same_test : (a b : ℕ) → (a == b) ≡ (suc a == suc b)
    same_test a b = ground arith

multi_get-last :
    (m m' : Multi) (v idx : ℕ)
    → m'.items ≡ m.items ++ (v ∷ [])
    → multi_get m' idx ≡ (if idx == length m.items then some v else multi_get m idx)
unfolding multi_get
multi_get-last m m' v idx e =
    let xs = m.items in
    let longer : length (xs ++ (v ∷ [])) ≡ suc (length xs) =
      omega (arith, length-append xs (v ∷ [])) in
    ap (λ (l : List ℕ). if leb (length l) idx then none else some (get_or l idx 0)) e
    ∙ rw longer (elim (Bool-cases (leb (length xs) idx)) [
      | inr low ↦
          let inside : leb (suc (length xs)) idx ≡ false = ground (arith, low) in
          let other : (idx == length xs) ≡ false = ground (arith, low) in
          rw (inside, other, low)
            (ap (λ (n : ℕ). some n)
              (get_or-last xs v idx (ground (arith, low))
                ∙ ap (λ (t : Bool). if t then v else get_or xs idx 0) other))
      | inl high ↦ elim (eq-cases idx (length xs)) [
        | inl same ↦
            let inside : leb (suc (length xs)) idx ≡ false = ground (arith, same) in
            let here = eq→== idx (length xs) same in
            rw (inside, here)
              (ap (λ (n : ℕ). some n)
                (get_or-last xs v idx (omega (arith, same))
                  ∙ ap (λ (t : Bool). if t then v else get_or xs idx 0) here))
        | inr other ↦
            let outside : leb (suc (length xs)) idx ≡ true = ground (arith, other, high) in
            rw (outside, ne→== idx (length xs) other, high) refl
      ]
    ])

pub wider-room : (cap n : ℕ) → cap < 2 ^ 31 → n ≤ suc cap → n ≤ wider cap
wider-room cap n small h = ground (arith, small, h)

-- A push puts the value behind the others, and a get finds it there and the others where they were;
-- it fails only where the array has to grow and memory is refused, and then nothing has changed.
-- Items that fit the capacity still do, up to 2^31 of them.
pub multi_get-push :
    (mem : Memory) (m : Multi) (v : ℕ)
    → length m.items ≤ m.cap
    → m.cap < 2 ^ 31
    → (good : Bool) × (m' : Multi) × (multi_push mem m v ≡ (good, m'))
      × (length m'.items ≤ m'.cap)
      × (((good ≡ false) × (m' ≡ m) × (length m.items ≡ m.cap) × (mem (wider m.cap * 8) ≡ false))
          ⊎ ((good ≡ true)
              × ((idx : ℕ)
                  → multi_get m' idx
                    ≡ (if idx == length m.items then some v else multi_get m idx))))
unfolding multi_push
multi_get-push mem m v fits small =
    let pushed : List ℕ = m.items ++ (v ∷ []) in
    let longer : length pushed ≡ suc (length m.items) =
      omega (arith, length-append m.items (v ∷ [])) in
    elim (Bool-cases (length m.items == m.cap)) [
      | inr room ↦ (
        true,
        record m { items = pushed },
        rw room refl,
        omega (arith, fits, longer, ==→ne (length m.items) m.cap room),
        inr (refl, λ idx. multi_get-last m (record m { items = pushed }) v idx refl),
      )
      | inl full ↦ elim (Bool-cases (mem (wider m.cap * 8))) [
        | inr denied ↦ (
          false,
          m,
          rw (full, denied) refl,
          fits,
          inl (refl, refl, ==→eq (length m.items) m.cap full, denied),
        )
        | inl granted ↦ (
          true,
          record { items = pushed; cap = wider m.cap },
          rw (full, granted) refl,
          wider-room m.cap (length pushed) small
              (omega (arith, longer, ==→eq (length m.items) m.cap full)),
          inr (
            refl,
            λ idx. multi_get-last m (record { items = pushed; cap = wider m.cap }) v idx refl,
          ),
        )
      ]
    ]
