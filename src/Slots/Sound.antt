-- ===== src/Slots/Sound.antt =====
-- The invariant of the slots: a free slot is not in use and listed once (database/src/table.c).
use writeonce.Common.{
  ℕ, zero, suc, ◌+◌, ◌*◌, ◌/◌, ◌%◌, ◌^◌, take, ltb, ltb→lt, ltb→le, ◌≤◌, ◌<◌, ◌≡◌, ◌≢◌, refl, ◌∙◌,
  sym, ap, Bool, true, false, Option, none, some, List, [], ◌∷◌, ◌++◌, length, get_or, replicate,
  ◌==◌, if◌then◌else◌, All, length-append, Bool-cases, ◌⊎◌, inl, inr, arith, subst,
}
use writeonce.Wire.{Memory, IsCapped}
use writeonce.Slots.{
  no_row, Slots, slab_rows, row_at, bit_at, first_clear, slab_cnt, grow_slab_array, add_slab,
  grow_slabs, scan_slots, pop_slot, slot_alloc,
}

-- A slot of the slabs that no row is in.
abbrev pub IsVacant : Slots → ℕ → Type 0
IsVacant s g = (g < length s.bits) × (bit_at s g ≡ false)

abbrev pub AreDistinct : List ℕ → Type 0
AreDistinct [] = Unit
AreDistinct (g ∷ gs) = All (λ (h : ℕ). h ≢ g) gs × AreDistinct gs

-- `slabs` is the number of slabs.
pub record IsSlots (s : Slots) : Type 0 where
  pub slabs : ℕ
  pub whole : length s.bits ≡ slabs * slab_rows
  pub few : length s.bits < 2 ^ 32
  pub same_size : length s.rows ≡ length s.bits
  pub roomy : length s.free_slots ≤ s.free_cap
  pub vacant : All (λ g. IsVacant s g) s.free_slots
  pub distinct : AreDistinct s.free_slots

-- A slot that can be given to a row: vacant, and not listed as free.
pub record IsFresh (s : Slots) (g : ℕ) : Type 0 where
  pub is_vacant : IsVacant s g
  pub unlisted : All (λ (h : ℕ). h ≢ g) s.free_slots

-- The slots after an allocation: nothing in use is touched.
pub record Kept (s s' : Slots) : Type 0 where
  pub sound : IsSlots s'
  pub grows : length s.bits ≤ length s'.bits
  pub same_bits : (g : ℕ) → bit_at s' g ≡ bit_at s g
  pub same_rows : (g : ℕ) → row_at s' g ≡ row_at s g

pub All-map :
    {A : Type 0} (P Q : A → Type 0) (xs : List A) → ((x : A) → P x → Q x) → All P xs → All Q xs
All-map P Q [] f h = tt
All-map P Q (x ∷ xs) f h = (f x h.0, All-map P Q xs f h.1)

get_or-pad :
    {A : Type 0} (xs : List A) (n i : ℕ) (d : A) → get_or (xs ++ replicate n d) i d ≡ get_or xs i d
get_or-pad [] zero i d = refl
get_or-pad [] (suc n) zero d = refl
get_or-pad [] (suc n) (suc i) d = get_or-pad [] n i d
get_or-pad (x ∷ xs) n zero d = refl
get_or-pad (x ∷ xs) n (suc i) d = get_or-pad xs n i d

pub get_or-beyond : {A : Type 0} (xs : List A) (i : ℕ) (d : A) → length xs ≤ i → get_or xs i d ≡ d
get_or-beyond [] i d h = refl
get_or-beyond (x ∷ xs) zero d h = absurd (omega (arith, h))
get_or-beyond (x ∷ xs) (suc i) d h = get_or-beyond xs i d (omega (arith, h))

-- The scan finds a clear bit, or all are set.
first_clear-clear :
    (bs : List Bool) (g i : ℕ)
    → first_clear g bs ≡ some i
    → (j : ℕ) × (i ≡ g + j) × (j < length bs) × (get_or bs j false ≡ false)
unfolding first_clear
first_clear-clear [] g i e = cc
first_clear-clear (false ∷ bs) g i e = (0, sym (place e) ∙ omega arith, omega arith, refl)
  where
    place : some g ≡ some i → g ≡ i
    place e = cc
first_clear-clear (true ∷ bs) g i e =
    let (j, at, low, clear) = first_clear-clear bs (g + 1) i e in
    (suc j, omega (arith, at), omega (arith, low), clear)

grow_slab_array-cases :
    (mem : Memory) (s : Slots)
    → ((grow_slab_array mem s ≡ none) × ((n : ℕ) × (mem n ≡ false)))
      ⊎ ((c : ℕ) × (grow_slab_array mem s ≡ some (record s { slab_cap = c })))
unfolding grow_slab_array
grow_slab_array-cases mem s = elim (Bool-cases (slab_cnt s == s.slab_cap)) [
  | inr room ↦ rw room (inr (s.slab_cap, refl))
  | inl full ↦
      elim (Bool-cases (mem ((if s.slab_cap == 0 then 4 else s.slab_cap * 2 % 2 ^ 32) * 8))) [
        | inl granted ↦
            rw (full, granted) (inr (if s.slab_cap == 0 then 4 else s.slab_cap * 2 % 2 ^ 32, refl))
        | inr denied ↦
            rw (full, denied)
              (inl (refl, ((if s.slab_cap == 0 then 4 else s.slab_cap * 2 % 2 ^ 32) * 8, denied)))
      ]
]

-- What an allocation gives.
abbrev pub IsAllocated : Memory → Slots → Option ℕ × Slots → Type 0
IsAllocated mem s (none, s') = Kept s s' × ((n : ℕ) × (mem n ≡ false))
IsAllocated mem s (some g, s') = Kept s s' × IsFresh s' g

same-Kept : (s : Slots) → IsSlots s → Kept s s
same-Kept s h = record {
  sound = h;
  grows = omega arith;
  same_bits = λ g. refl;
  same_rows = λ g. refl;
}

take_all : (n : ℕ) (bs : List Bool) → length bs ≤ n → take n bs ≡ bs
take_all zero [] h = refl
take_all (suc n) [] h = refl
take_all zero (b ∷ bs) h = absurd (omega (arith, h))
take_all (suc n) (b ∷ bs) h = ap (λ t. b ∷ t) (take_all n bs (omega (arith, h)))

-- A granted request is a small one.
pub capped-below : (mem : Memory) → IsCapped mem → (n : ℕ) → mem n ≡ true → n < 2 ^ 29
capped-below mem capped n given = elim (Bool-cases (ltb n (2 ^ 29))) [
  | inl small ↦ ltb→lt n (2 ^ 29) small
  | inr large ↦ absurd (clash (sym given ∙ capped n (ltb→le n (2 ^ 29) large)))
]
  where
    clash : true ≡ false → ⊥
    clash e = cc

-- A slab more: its slots are vacant, and no listed one.
add_slab-IsAllocated :
    (mem : Memory) (row_size : ℕ) (s : Slots)
    → IsCapped mem
    → IsSlots s
    → s.free_slots ≡ []
    → IsAllocated mem s (add_slab mem row_size s)
unfolding add_slab
add_slab-IsAllocated mem row_size s capped h e = elim (Bool-cases (mem (slab_rows * row_size))) [
  | inr denied ↦ rw denied (same-Kept s h, (slab_rows * row_size, denied))
  | inl granted ↦ elim (Bool-cases (mem (((slab_cnt s + 1) * slab_rows + 63) / 64 * 8))) [
    | inr denied ↦
        rw (granted, denied) (same-Kept s h, (((slab_cnt s + 1) * slab_rows + 63) / 64 * 8, denied))
    | inl given ↦
        rw (granted, given)
          (
            record {
              sound = record {
                slabs = suc h.slabs;
                whole = omega (arith, longer_bits, h.whole);
                few = fewer given;
                same_size = omega (arith, longer_bits, longer_rows, h.same_size);
                roomy = h.roomy;
                vacant = subst (λ l. All (λ g. IsVacant new g) l) (sym e) tt;
                distinct = h.distinct;
              };
              grows = omega (arith, longer_bits);
              same_bits = λ g. get_or-pad s.bits slab_rows g false;
              same_rows = λ g. get_or-pad s.rows slab_rows g no_row;
            },
            record {
              is_vacant = (
                omega (arith, longer_bits, h.whole, here),
                get_or-pad s.bits slab_rows (slab_cnt s * slab_rows % 2 ^ 32) false
                    ∙ beyond s.bits (slab_cnt s * slab_rows % 2 ^ 32) (omega (arith, here)),
              );
              unlisted =
                  subst (λ l. All (λ (i : ℕ). i ≢ slab_cnt s * slab_rows % 2 ^ 32) l) (sym e) tt;
            },
          )
  ]
]
  where
    new : Slots
    new = record s {
      rows = s.rows ++ replicate slab_rows no_row;
      bits = s.bits ++ replicate slab_rows false;
    }

    longer_bits : length (s.bits ++ replicate slab_rows false) ≡ length s.bits + slab_rows
    longer_bits = length-append s.bits (replicate slab_rows false)

    -- The number of the first slot is that of the slots before.
    here : slab_cnt s * slab_rows % 2 ^ 32 ≡ length s.bits
    here = omega (arith, h.whole, h.few)

    fewer :
        mem (((slab_cnt s + 1) * slab_rows + 63) / 64 * 8) ≡ true
        → length (s.bits ++ replicate slab_rows false) < 2 ^ 32
    fewer given =
        let small : ((slab_cnt s + 1) * slab_rows + 63) / 64 * 8 < 2 ^ 29 =
          capped-below mem capped (((slab_cnt s + 1) * slab_rows + 63) / 64 * 8) given in
        omega (arith, small, longer_bits, h.whole)

    longer_rows : length (s.rows ++ replicate slab_rows no_row) ≡ length s.rows + slab_rows
    longer_rows = length-append s.rows (replicate slab_rows no_row)

    beyond : (bs : List Bool) (i : ℕ) → length bs ≤ i → get_or bs i false ≡ false
    beyond bs i low = get_or-beyond bs i false low

-- The capacity of the slab array does not show.
other_cap :
    (mem : Memory) (s : Slots) (c : ℕ) (r : Option ℕ × Slots)
    → IsAllocated mem (record s { slab_cap = c }) r
    → IsAllocated mem s r
other_cap mem s c (none, s') (k, why) = (
  record { sound = k.sound; grows = k.grows; same_bits = k.same_bits; same_rows = k.same_rows },
  why,
)
other_cap mem s c (some g, s') (k, f) = (
  record { sound = k.sound; grows = k.grows; same_bits = k.same_bits; same_rows = k.same_rows },
  f,
)

grow_slabs-IsAllocated :
    (mem : Memory) (row_size : ℕ) (s : Slots)
    → IsCapped mem
    → IsSlots s
    → s.free_slots ≡ []
    → IsAllocated mem s (grow_slabs mem row_size s)
unfolding grow_slabs
grow_slabs-IsAllocated mem row_size s capped h e = elim (grow_slab_array-cases mem s) [
  | inl (denied, why) ↦ rw (grow_slabs, denied) (same-Kept s h, why)
  | inr (c, given) ↦
      rw (grow_slabs, given)
        (other_cap mem s c (add_slab mem row_size (record s { slab_cap = c })) (
          add_slab-IsAllocated mem row_size (record s { slab_cap = c }) capped
            (record {
              slabs = h.slabs;
              whole = h.whole;
              few = h.few;
              same_size = h.same_size;
              roomy = h.roomy;
              vacant =
                  All-map (λ g. IsVacant s g) (λ g. IsVacant (record s { slab_cap = c }) g)
                    s.free_slots (λ g v. v) h.vacant;
              distinct = h.distinct;
            })
            e))
]

pub slot_alloc-IsAllocated :
    (mem : Memory) (row_size : ℕ) (s : Slots)
    → IsCapped mem
    → IsSlots s
    → IsAllocated mem s (slot_alloc mem row_size s)
unfolding slot_alloc pop_slot scan_slots
slot_alloc-IsAllocated mem row_size s capped h = by_free s.free_slots refl
  where
    by_scan :
        (r : Option ℕ)
        → first_clear 0 s.bits ≡ r
        → s.free_slots ≡ []
        → IsAllocated mem s (scan_slots mem row_size s r)
    by_scan none at e = grow_slabs-IsAllocated mem row_size s capped h e
    by_scan (some g) at e =
        let (j, same, low, clear) = first_clear-clear s.bits 0 g at in
        let here : g ≡ j = omega (arith, same) in
        (
          same-Kept s h,
          record {
            is_vacant = (omega (arith, here, low), ap (λ i. get_or s.bits i false) here ∙ clear);
            unlisted = subst (λ l. All (λ (i : ℕ). i ≢ g) l) (sym e) tt;
          },
        )

    by_free : (fs : List ℕ) → s.free_slots ≡ fs → IsAllocated mem s (pop_slot mem row_size s fs)
    by_free [] e = rw whole_scan (by_scan (first_clear 0 s.bits) refl e)
      where
        whole_scan : take (slab_cnt s * slab_rows % 2 ^ 32) s.bits ≡ s.bits
        whole_scan =
            take_all (slab_cnt s * slab_rows % 2 ^ 32) s.bits (omega (arith, h.whole, h.few))
    by_free (g ∷ gs) e =
        let v : All (λ i. IsVacant s i) (g ∷ gs) =
          subst (λ l. All (λ i. IsVacant s i) l) e h.vacant in
        let d : AreDistinct (g ∷ gs) = subst AreDistinct e h.distinct in
        (
          record {
            sound = record {
              slabs = h.slabs;
              whole = h.whole;
              few = h.few;
              same_size = h.same_size;
              roomy = omega (arith, ap (λ (l : List ℕ). length l) e, h.roomy);
              vacant = v.1;
              distinct = d.1;
            };
            grows = omega arith;
            same_bits = λ i. refl;
            same_rows = λ i. refl;
          },
          record { is_vacant = v.0; unlisted = d.0 },
        )
