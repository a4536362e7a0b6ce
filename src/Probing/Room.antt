-- ===== src/Probing/Room.antt =====
-- A walk over a power of two of buckets, one of them empty, comes to its end.
use writeonce.Common.{
  ℕ, zero, suc, ◌+◌, ◌-◌, ◌%◌, ◌^◌, ◌≤◌, ◌<◌, ◌≡◌, ◌≢◌, refl, ◌∙◌, sym, ap, Bool, true, false, List,
  [], ◌∷◌, length, replicate, set, bit_and, ◌==◌, if◌then◌else◌, eq-cases, ◌⊎◌, inl, inr, eq→==,
  ne→==, arith,
}
use writeonce.Common.Bits.Mask.{bit_and_mask}
use native.Mathlib.Nat.{one-le-pow}
use writeonce.Probing.{Bucket, vacant, Probe, found, vacancy, spinning, next, probe, home}
use writeonce.Probing.Walks.{key_at}

-- The number of buckets is a power of two.
abbrev pub IsSized : List Bucket → Type 0
IsSized bs = (m : ℕ) × (length bs ≡ 2 ^ m)

pub IsSized-pos : (bs : List Bucket) → IsSized bs → 0 < length bs
IsSized-pos bs (m, e) = omega (arith, e, one-le-pow m 2 (omega arith))

mask_lem : (n m x : ℕ) → n ≡ 2 ^ m → bit_and x (n - 1) ≡ x % n
mask_lem n m x e =
    bit_and_mask m (n - 1) x (omega (arith, e, one-le-pow m 2 (omega arith)))
    ∙ ap (λ t. x % t) (sym e)

rem-lt : (x n : ℕ) → 0 < n → x % n < n
rem-lt x n h = grind arith

pub home-lt : (mix : ℕ → ℕ) (bs : List Bucket) (key : ℕ) → IsSized bs → home mix bs key < length bs
home-lt mix bs key (m, e) =
    rw (mask_lem (length bs) m (mix key) e) (rem-lt (mix key) (length bs) (IsSized-pos bs (m, e)))

rem_next :
    (j n : ℕ) → j < n → ((j + 1 < n) × ((j + 1) % n ≡ j + 1)) ⊎ ((j + 1 ≡ n) × ((j + 1) % n ≡ 0))
rem_next j n h = elim (eq-cases (j + 1) n) [
  | inl e ↦ inr (e, rw e (grind arith))
  | inr ne ↦ inl (omega arith, grind arith)
]

-- One bucket on, or from the last to the first.
pub next_lem :
    (bs : List Bucket) (j : ℕ)
    → IsSized bs
    → j < length bs
    → ((j + 1 < length bs) × (next bs j ≡ j + 1)) ⊎ ((j + 1 ≡ length bs) × (next bs j ≡ 0))
next_lem bs j (m, e) h = rw (mask_lem (length bs) m (j + 1) e) (rem_next j (length bs) h)

-- The walk ends at a bucket of the table.
abbrev pub EndsBelow : ℕ → Probe → Type 0
EndsBelow n (found p) = p < n
EndsBelow n (vacancy p) = p < n
EndsBelow n spinning = ⊥

EndsBelow-if :
    (n : ℕ) (b : Bool) (x y : Probe)
    → EndsBelow n x
    → EndsBelow n y
    → EndsBelow n (if b then x else y)
EndsBelow-if n true x y f g = f
EndsBelow-if n false x y f g = g

-- The empty bucket `e` lies ahead of `j`, with or without the wrap, fewer than `fuel` rounds away.
abbrev Ahead : ℕ → ℕ → ℕ → ℕ → Type 0
Ahead n e j fuel = ((j ≤ e) × (e < fuel + j)) ⊎ ((e < j) × (e + n < fuel + j))

module _ (bs : List Bucket) (sized : IsSized bs) (e : ℕ) (inside : e < length bs)
    (empty : key_at bs e ≡ 0) where
  nearer :
      (fuel j : ℕ)
      → j < length bs
      → j ≢ e
      → Ahead (length bs) e j (suc fuel)
      → (next bs j < length bs) × Ahead (length bs) e (next bs j) fuel
  nearer fuel j h ne ahead = elim (next_lem bs j sized h) [
    | inl (low, on) ↦ rw on (elim ahead [
      | inl (le, near) ↦ (low, inl (omega arith, omega arith))
      | inr (lt, near) ↦ (low, inr (omega arith, omega arith))
    ])
    | inr (last, back) ↦ rw back (elim ahead [
      | inl (le, near) ↦ absurd (omega arith)
      | inr (lt, near) ↦ (omega arith, inl (omega arith, omega arith))
    ])
  ]

  probe-EndsBelow :
      (fuel key j : ℕ)
      → j < length bs
      → Ahead (length bs) e j fuel
      → EndsBelow (length bs) (probe fuel bs key j)
  unfolding probe
  probe-EndsBelow zero key j h (inl (le, near)) = absurd (omega arith)
  probe-EndsBelow zero key j h (inr (lt, near)) = absurd (omega arith)
  probe-EndsBelow (suc fuel) key j h ahead = elim (eq-cases (key_at bs j) 0) [
    | inl stop ↦ rw (eq→== (key_at bs j) 0 stop) h
    | inr full ↦
        let ne : j ≢ e = λ same. full (ap (key_at bs) same ∙ empty) in
        let (low, near) = nearer fuel j h ne ahead in
        rw (ne→== (key_at bs j) 0 full) (
          EndsBelow-if (length bs) (key_at bs j == key) (found j) (probe fuel bs key (next bs j)) h
            (probe-EndsBelow fuel key (next bs j) low near))
  ]

  pub seek-EndsBelow :
      (key j : ℕ) → j < length bs → EndsBelow (length bs) (probe (length bs) bs key j)
  seek-EndsBelow key j h = probe-EndsBelow (length bs) key j h (ahead (eq-cases j e))
    where
      ahead : (j ≡ e) ⊎ (j ≢ e) → Ahead (length bs) e j (length bs)
      ahead c = grind arith

-- The buckets in use, tombstones too.
unfoldable pub used : List Bucket → ℕ
used [] = 0
used (b ∷ bs) = if b.key == 0 then used bs else suc (used bs)

pub used-le : (bs : List Bucket) → used bs ≤ length bs
unfolding used
used-le [] = omega arith
used-le (b ∷ bs) = ground (arith, used-le bs)

pub empty_bucket :
    (bs : List Bucket) → used bs < length bs → (e : ℕ) × (e < length bs) × (key_at bs e ≡ 0)
unfolding used
empty_bucket [] h = absurd (omega arith)
empty_bucket (b ∷ bs) h = elim (eq-cases b.key 0) [
  | inl e ↦ (0, omega arith, e)
  | inr ne ↦
      let few : suc (used bs) < suc (length bs) = rw (ne→== b.key 0 ne) at h in
      let (i, low, empty) = empty_bucket bs (omega arith) in (suc i, omega arith, empty)
]

pub used-set :
    (bs : List Bucket) (p : ℕ) (b : Bucket)
    → p < length bs
    → b.key ≢ 0
    → used (set bs p b) ≡ (if key_at bs p == 0 then suc (used bs) else used bs)
unfolding used
used-set [] p b h nz = absurd (omega arith)
used-set (c ∷ bs) zero b h nz = rw (ne→== b.key 0 nz) (ground arith)
used-set (c ∷ bs) (suc p) b h nz = ground (arith, used-set bs p b (omega arith) nz)

pub used-replicate : (n : ℕ) → used (replicate n vacant) ≡ 0
unfolding used
used-replicate zero = refl
used-replicate (suc n) = used-replicate n
