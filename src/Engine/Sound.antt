-- ===== src/Engine/Sound.antt =====
-- What a read from an `rbuf` of database/src/wal.c takes, on any bytes, and the rules by which
-- the decoders compose.
use writeonce.Common.{
  ℕ, zero, suc, ◌+◌, ◌^◌, ◌≤◌, ◌<◌, ◌≡◌, refl, Bool, true, false, ◌||◌, List, [], ◌∷◌, length, take,
  drop, length-take, length-drop, All, ltb, if◌then◌else◌, Bool-cases, inl, inr, arith,
}
use writeonce.Wire.{Rbuf, rtake, or_zero, read_int, rd_u8, rd_u32, rd_u64}
use writeonce.Wire.Integers.{IsByte, le_value-lt}
use writeonce.Engine.{Read, ok, bad_input, stuck, ◌>>=◌}

pub All-take : (n : ℕ) (bs : List ℕ) → All IsByte bs → All IsByte (take n bs)
All-take zero bs h = tt
All-take (suc n) [] h = tt
All-take (suc n) (b ∷ bs) h = (h.0, All-take n bs h.1)

pub All-drop : (n : ℕ) (bs : List ℕ) → All IsByte bs → All IsByte (drop n bs)
All-drop zero bs h = h
All-drop (suc n) [] h = tt
All-drop (suc n) (b ∷ bs) h = All-drop n bs h.1

-- The outcome of a decode from `r`: a value in `P` and no more bytes than before, or a refusal.
-- It is never `stuck`.
abbrev pub Sound : {A : Type 0} → (A → Type 0) → Rbuf → Read (A × Rbuf) → Type 0
Sound P r (ok (a, r')) = P a × (length r'.rest ≤ length r.rest) × All IsByte r'.rest
Sound P r bad_input = Unit
Sound P r stuck = ⊥

module _ {A B : Type 0} (P : A → Type 0) (Q : B → Type 0) where
  pub Sound-bind :
      (r : Rbuf) (x : Read (A × Rbuf)) (f : A × Rbuf → Read (B × Rbuf))
      → Sound P r x
      → ((a : A) (r' : Rbuf)
          → P a
          → length r'.rest ≤ length r.rest
          → All IsByte r'.rest
          → Sound Q r (f (a, r')))
      → Sound Q r (x >>= f)
  Sound-bind r (ok (a, r')) f h k = k a r' h.0 h.1 h.2
  Sound-bind r bad_input f h k = tt
  Sound-bind r stuck f h k = absurd h

pub Sound-weaken :
    {A : Type 0} (P : A → Type 0) (r r' : Rbuf) (x : Read (A × Rbuf))
    → length r.rest ≤ length r'.rest
    → Sound P r x
    → Sound P r' x
Sound-weaken P r r' (ok (a, s)) le h = (h.0, omega (arith, h.1), h.2)
Sound-weaken P r r' bad_input le h = tt
Sound-weaken P r r' stuck le h = h

module _ {A : Type 0} (P : A → Type 0) (r : Rbuf) where
  -- A branch on a test that the code makes.
  pub Sound-if :
      (b : Bool) (x y : Read (A × Rbuf))
      → (b ≡ true → Sound P r x)
      → (b ≡ false → Sound P r y)
      → Sound P r (if b then x else y)
  Sound-if true x y yes_case no_case = yes_case refl
  Sound-if false x y yes_case no_case = no_case refl

-- A good read of `n` bytes takes them and gives an integer of that width.
pub record Takes (n : ℕ) (r : Rbuf) (v : ℕ) (r' : Rbuf) : Type 0 where
  pub bounded : v < 256 ^ n
  pub taken : length r'.rest + n ≡ length r.rest
  pub bytes_left : All IsByte r'.rest

pub read_int-Takes :
    (n : ℕ) (r : Rbuf)
    → All IsByte r.rest
    → (read_int n r).1.bad ≡ false
    → Takes n r (read_int n r).0 (read_int n r).1
unfolding read_int rtake or_zero
read_int-Takes n r h good = elim (Bool-cases (r.bad || ltb (length r.rest) n)) [
  | inl short ↦ absurd (clash (rw short at good))
  | inr enough ↦
      let few : n ≤ length r.rest = ground arith in
      let exact : length (take n r.rest) ≡ n = omega (arith, length-take n r.rest) in
      rw enough (record {
        bounded = rw exact at (le_value-lt (take n r.rest) (All-take n r.rest h));
        taken = omega (arith, length-drop n r.rest);
        bytes_left = All-drop n r.rest h;
      })
]
  where
    clash : true ≡ false → ⊥
    clash e = cc

pub rd_u8-Takes :
    (r : Rbuf) → All IsByte r.rest → (rd_u8 r).1.bad ≡ false → Takes 1 r (rd_u8 r).0 (rd_u8 r).1
unfolding rd_u8
rd_u8-Takes r h good = read_int-Takes 1 r h good

pub rd_u32-Takes :
    (r : Rbuf) → All IsByte r.rest → (rd_u32 r).1.bad ≡ false → Takes 4 r (rd_u32 r).0 (rd_u32 r).1
unfolding rd_u32
rd_u32-Takes r h good = read_int-Takes 4 r h good

pub rd_u64-Takes :
    (r : Rbuf) → All IsByte r.rest → (rd_u64 r).1.bad ≡ false → Takes 8 r (rd_u64 r).0 (rd_u64 r).1
unfolding rd_u64
rd_u64-Takes r h good = read_int-Takes 8 r h good

-- A reader that went bad stays bad.
pub rd_u8-good : (r : Rbuf) → (rd_u8 r).1.bad ≡ false → r.bad ≡ false
unfolding rd_u8
rd_u8-good r h = ground arith

pub rd_u32-good : (r : Rbuf) → (rd_u32 r).1.bad ≡ false → r.bad ≡ false
unfolding rd_u32
rd_u32-good r h = ground arith
