-- ===== src/Schema/Gives.antt =====
-- Reads (`rd_u8` and `rd_u32` of database/src/wal.c) that say which bytes they took, and how such
-- reads compose.
use writeonce.Common.{
  ℕ, ◌≤◌, ◌≡◌, refl, ◌∙◌, sym, ap, Bool, true, false, ◌||◌, List, ◌++◌, length, take, drop,
  length-take, take-append-drop, All, ltb, if◌then◌else◌, Bool-cases, inl, inr, arith,
}
use writeonce.Wire.{Rbuf, le_bytes, rtake, or_zero, read_int, rd_u8, rd_u32}
use writeonce.Wire.Integers.{IsByte, le_bytes-le_value}
use writeonce.Engine.{Read, ok, bad_input, stuck, ◌>>=◌}
use writeonce.Engine.Encoding.{u8, u32}
use writeonce.Engine.Sound.{All-take}

-- The bytes of an integer that was read stand in front of what is left.
read_int-bytes :
    (n : ℕ) (r : Rbuf)
    → All IsByte r.rest
    → (read_int n r).1.bad ≡ false
    → r.rest ≡ le_bytes n (read_int n r).0 ++ (read_int n r).1.rest
unfolding read_int rtake or_zero
read_int-bytes n r h good = elim (Bool-cases (r.bad || ltb (length r.rest) n)) [
  | inl short ↦ absurd (clash (rw short at good))
  | inr enough ↦
      let few : n ≤ length r.rest = ground arith in
      let exact : length (take n r.rest) ≡ n = omega (arith, length-take n r.rest) in
      let bytes = rw exact at (le_bytes-le_value (take n r.rest) (All-take n r.rest h)) in
      rw enough (sym (take-append-drop n r.rest) ∙ ap (λ t. t ++ drop n r.rest) (sym bytes))
]
  where
    clash : true ≡ false → ⊥
    clash e = cc

pub rd_u8-bytes :
    (r : Rbuf)
    → All IsByte r.rest
    → (rd_u8 r).1.bad ≡ false
    → r.rest ≡ u8 (rd_u8 r).0 ++ (rd_u8 r).1.rest
unfolding rd_u8
rd_u8-bytes r h good = read_int-bytes 1 r h good

pub rd_u32-bytes :
    (r : Rbuf)
    → All IsByte r.rest
    → (rd_u32 r).1.bad ≡ false
    → r.rest ≡ u32 (rd_u32 r).0 ++ (rd_u32 r).1.rest
unfolding rd_u32
rd_u32-bytes r h good = read_int-bytes 4 r h good

-- A good outcome of a read relates what it made to the bytes before and after it.
abbrev pub Gives : {A : Type 0} → (A → List ℕ → List ℕ → Type 0) → Rbuf → Read (A × Rbuf) → Type 0
Gives R r (ok (a, r')) = R a r.rest r'.rest × All IsByte r'.rest
Gives R r bad_input = Unit
Gives R r stuck = ⊥

module _ {A : Type 0} (R : A → List ℕ → List ℕ → Type 0) (r : Rbuf) where
  pub Gives-if :
      (b : Bool) (x y : Read (A × Rbuf))
      → (b ≡ true → Gives R r x)
      → (b ≡ false → Gives R r y)
      → Gives R r (if b then x else y)
  Gives-if true x y f g = f refl
  Gives-if false x y f g = g refl

-- What follows a read from `r1`, as a read from `r`.
pub Gives-bind :
    {A B : Type 0} (R : A → List ℕ → List ℕ → Type 0) (S : B → List ℕ → List ℕ → Type 0)
    (r1 r : Rbuf) (x : Read (A × Rbuf)) (f : A × Rbuf → Read (B × Rbuf))
    → Gives R r1 x
    → ((a : A) (r' : Rbuf) → R a r1.rest r'.rest → All IsByte r'.rest → Gives S r (f (a, r')))
    → Gives S r (x >>= f)
Gives-bind R S r1 r (ok (a, r')) f h k = k a r' h.0 h.1
Gives-bind R S r1 r bad_input f h k = tt
Gives-bind R S r1 r stuck f h k = absurd h
