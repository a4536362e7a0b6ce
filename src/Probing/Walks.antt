-- ===== src/Probing/Walks.antt =====
-- What the end of a walk says about the buckets, and how a write changes other walks.
use writeonce.Common.{
  ℕ, zero, suc, ◌+◌, ◌-◌, ◌<◌, ◌≡◌, ◌≢◌, refl, ◌∙◌, sym, ap, some, List, length, get_or, set,
  length-set, get_or-set_self, get_or-set_ne, bit_and, ◌==◌, subst, eq-cases, ◌⊎◌, inl, inr,
  Bool-cases, ==→eq, eq→==, ne→==,
}
use writeonce.Probing.{Bucket, vacant, Probe, found, vacancy, spinning, next, probe, probe_vacant}

-- The key in a bucket.
abbrev pub key_at : List Bucket → ℕ → ℕ
key_at bs j = (get_or bs j vacant).key

abbrev pub IsEnd : List Bucket → ℕ → Probe → Type 0
IsEnd bs key (found p) = key_at bs p ≡ key
IsEnd bs key (vacancy p) = key_at bs p ≡ 0
IsEnd bs key spinning = Unit

pub probe-IsEnd : (fuel : ℕ) (bs : List Bucket) (key j : ℕ) → IsEnd bs key (probe fuel bs key j)
unfolding probe
probe-IsEnd zero bs key j = tt
probe-IsEnd (suc fuel) bs key j = elim (Bool-cases (key_at bs j == 0)) [
  | inl e ↦ rw e (==→eq (key_at bs j) 0 e)
  | inr e ↦ elim (Bool-cases (key_at bs j == key)) [
    | inl here ↦ rw (e, here) (==→eq (key_at bs j) key here)
    | inr other ↦ rw (e, other) (probe-IsEnd fuel bs key (next bs j))
  ]
]

-- One round, by what stands in the bucket.
probe-vacant :
    (fuel : ℕ) (bs : List Bucket) (key j : ℕ)
    → key_at bs j ≡ 0
    → probe (suc fuel) bs key j ≡ vacancy j
unfolding probe
probe-vacant fuel bs key j e = rw (eq→== (key_at bs j) 0 e) refl

probe-here :
    (fuel : ℕ) (bs : List Bucket) (key j : ℕ)
    → key ≢ 0
    → key_at bs j ≡ key
    → probe (suc fuel) bs key j ≡ found j
unfolding probe
probe-here fuel bs key j nz e =
    rw (ne→== (key_at bs j) 0 (λ z. nz (sym e ∙ z)), eq→== (key_at bs j) key e) refl

probe-on :
    (fuel : ℕ) (bs : List Bucket) (key j : ℕ)
    → key_at bs j ≢ 0
    → key_at bs j ≢ key
    → probe (suc fuel) bs key j ≡ probe fuel bs key (next bs j)
unfolding probe
probe-on fuel bs key j nz ne = rw (ne→== (key_at bs j) 0 nz, ne→== (key_at bs j) key ne) refl

pub key_at-set_self :
    (bs : List Bucket) (p : ℕ) (b : Bucket) → p < length bs → key_at (set bs p b) p ≡ b.key
key_at-set_self bs p b h = ap (λ (c : Bucket). c.key) (get_or-set_self bs p b vacant h)

pub key_at-set_ne :
    (bs : List Bucket) (p j : ℕ) (b : Bucket) → p ≢ j → key_at (set bs p b) j ≡ key_at bs j
key_at-set_ne bs p j b h = ap (λ (c : Bucket). c.key) (get_or-set_ne bs p j b vacant h)

probe-next-set :
    (fuel : ℕ) (bs : List Bucket) (p : ℕ) (b : Bucket) (key j : ℕ)
    → probe fuel (set bs p b) key (next (set bs p b) j) ≡ probe fuel (set bs p b) key (next bs j)
probe-next-set fuel bs p b key j =
    ap (λ n. probe fuel (set bs p b) key (bit_and (j + 1) (n - 1))) (length-set bs p b)

-- A write to a bucket of another key does not move the end of a walk that finds its key: either the
-- bucket was empty, so that the walk never came there, or it stays in use.
pub probe-set_ne :
    (fuel : ℕ) (bs : List Bucket) (p : ℕ) (b : Bucket) (key j q : ℕ)
    → p < length bs
    → key ≢ 0
    → key_at bs p ≢ key
    → (key_at bs p ≡ 0) ⊎ ((b.key ≢ 0) × (b.key ≢ key))
    → probe fuel bs key j ≡ found q
    → probe fuel (set bs p b) key j ≡ found q
unfolding probe
probe-set_ne zero bs p b key j q room nz ne used e = absurd (no_end e)
  where
    no_end : spinning ≡ found q → ⊥
    no_end e = cc
probe-set_ne (suc fuel) bs p b key j q room nz ne used e = elim (eq-cases (key_at bs j) 0) [
  | inl empty ↦ absurd (other_end (sym (probe-vacant fuel bs key j empty) ∙ e))
  | inr full ↦ elim (eq-cases (key_at bs j) key) [
    | inl here ↦
        let away : p ≢ j = λ same. ne (ap (key_at bs) same ∙ here) in
        probe-here fuel (set bs p b) key j nz (key_at-set_ne bs p j b away ∙ here)
        ∙ sym (probe-here fuel bs key j nz here)
        ∙ e
    | inr other ↦
        let (full', other') = still (eq-cases p j) full other used in
        probe-on fuel (set bs p b) key j full' other'
        ∙ probe-next-set fuel bs p b key j
        ∙ probe-set_ne fuel bs p b key (next bs j) q room nz ne used
            (sym (probe-on fuel bs key j full other) ∙ e)
  ]
]
  where
    other_end : vacancy j ≡ found q → ⊥
    other_end e = cc

    still :
        (p ≡ j) ⊎ (p ≢ j)
        → key_at bs j ≢ 0
        → key_at bs j ≢ key
        → (key_at bs p ≡ 0) ⊎ ((b.key ≢ 0) × (b.key ≢ key))
        → (key_at (set bs p b) j ≢ 0) × (key_at (set bs p b) j ≢ key)
    still (inl same) full other (inl empty) = absurd (full (ap (key_at bs) (sym same) ∙ empty))
    still (inl same) full other (inr stays) =
        let now = ap (key_at (set bs p b)) (sym same) ∙ key_at-set_self bs p b room in
        ((λ z. stays.0 (sym now ∙ z)), (λ z. stays.1 (sym now ∙ z)))
    still (inr away) full other used =
        let now = key_at-set_ne bs p j b away in
        ((λ z. full (sym now ∙ z)), (λ z. other (sym now ∙ z)))

-- The end of a walk, wherever it is.
abbrev pub EndsAt : ℕ → Probe → Type 0
EndsAt p (found q) = q ≡ p
EndsAt p (vacancy q) = q ≡ p
EndsAt p spinning = ⊥

-- A bucket of this key at the end of a walk is found.
pub probe-set_self :
    (fuel : ℕ) (bs : List Bucket) (p : ℕ) (b : Bucket) (key j : ℕ)
    → p < length bs
    → key ≢ 0
    → b.key ≡ key
    → EndsAt p (probe fuel bs key j)
    → probe fuel (set bs p b) key j ≡ found p
unfolding probe
probe-set_self zero bs p b key j room nz same e = elim e [ ]
probe-set_self (suc fuel) bs p b key j room nz same e = elim (eq-cases p j) [
  | inl at ↦
      let now = ap (key_at (set bs p b)) (sym at) ∙ key_at-set_self bs p b room ∙ same in
      probe-here fuel (set bs p b) key j nz now ∙ ap found (sym at)
  | inr away ↦
      let now = key_at-set_ne bs p j b away in
      elim (eq-cases (key_at bs j) 0) [
        | inl empty ↦
            let end : EndsAt p (vacancy j) =
              subst (EndsAt p) (probe-vacant fuel bs key j empty) e in
            absurd (away (sym end))
        | inr full ↦ elim (eq-cases (key_at bs j) key) [
          | inl here ↦
              let end : EndsAt p (found j) =
                subst (EndsAt p) (probe-here fuel bs key j nz here) e in
              absurd (away (sym end))
          | inr other ↦
              probe-on fuel (set bs p b) key j (λ z. full (sym now ∙ z)) (λ z. other (sym now ∙ z))
              ∙ probe-next-set fuel bs p b key j
              ∙ probe-set_self fuel bs p b key (next bs j) room nz same
                  (subst (EndsAt p) (probe-on fuel bs key j full other) e)
        ]
      ]
]

-- Where a walk ends at an empty bucket, the walk to the next empty one ends too.
pub probe_vacant-probe :
    (fuel : ℕ) (bs : List Bucket) (key j p : ℕ)
    → key ≢ 0
    → probe fuel bs key j ≡ vacancy p
    → probe_vacant fuel bs j ≡ some p
unfolding probe probe_vacant
probe_vacant-probe zero bs key j p nz e = absurd (no_end e)
  where
    no_end : spinning ≡ vacancy p → ⊥
    no_end e = cc
probe_vacant-probe (suc fuel) bs key j p nz e = elim (eq-cases (key_at bs j) 0) [
  | inl empty ↦
      let end = sym (probe-vacant fuel bs key j empty) ∙ e in
      rw (eq→== (key_at bs j) 0 empty) (ap some (place_of end))
  | inr full ↦ elim (eq-cases (key_at bs j) key) [
    | inl here ↦ absurd (other_end (sym (probe-here fuel bs key j nz here) ∙ e))
    | inr other ↦ rw (ne→== (key_at bs j) 0 full) (
        probe_vacant-probe fuel bs key (next bs j) p nz
          (sym (probe-on fuel bs key j full other) ∙ e))
  ]
]
  where
    other_end : found j ≡ vacancy p → ⊥
    other_end e = cc

    place_of : vacancy j ≡ vacancy p → j ≡ p
    place_of e = cc
