-- ===== src/Wal/Positions.antt =====
-- Cuts of a byte sequence and the bytes a positioned write leaves in a file (the `pwrite` calls of
-- `wo_wal_commit` in database/src/wal.c).
use writeonce.Common.{
  ℕ, zero, suc, ◌+◌, ◌-◌, ◌≤◌, ◌≡◌, refl, ◌∙◌, sym, ap, List, [], ◌∷◌, ◌++◌, append_assoc, length,
  take, drop, replicate, length-append, length-take, take-length_append, arith,
}
use writeonce.Wal.{overwrite}

-- A cut within the first part.
pub take-append : (n : ℕ) (xs ys : List ℕ) → n ≤ length xs → take n (xs ++ ys) ≡ take n xs
take-append zero xs ys h = refl
take-append (suc n) [] ys h = absurd (omega arith)
take-append (suc n) (x ∷ xs) ys h = ap (λ t. x ∷ t) (take-append n xs ys (omega arith))

pub take-take : (m n : ℕ) (xs : List ℕ) → m ≤ n → take m (take n xs) ≡ take m xs
take-take zero n xs h = refl
take-take (suc m) zero xs h = elim h [ ]
take-take (suc m) (suc n) [] h = refl
take-take (suc m) (suc n) (x ∷ xs) h = ap (λ t. x ∷ t) (take-take m n xs (omega arith))

-- A write inside the file or at its end leaves what lies before it, and holds what was written.
pub overwrite-before :
    (file bs : List ℕ) (pos n : ℕ)
    → n ≤ pos
    → pos ≤ length file
    → take n (overwrite file pos bs) ≡ take n file
unfolding overwrite
overwrite-before file bs pos n h k =
    take-append n (take pos file) _ (omega (arith, length-take pos file)) ∙ take-take n pos file h

pub overwrite-through :
    (file bs : List ℕ) (pos : ℕ)
    → pos ≤ length file
    → take (pos + length bs) (overwrite file pos bs) ≡ take pos file ++ bs
unfolding overwrite
overwrite-through file bs pos k =
    let no_gap : pos - length file ≡ 0 = omega arith in
    let behind = drop (pos + length bs) file in
    rw (no_gap, ← append_assoc (take pos file) bs behind)
      (take-length_append (pos + length bs) (take pos file ++ bs) behind
        (omega (arith, length-append (take pos file) bs, length-take pos file)))

pub length-overwrite-ge :
    (file bs : List ℕ) (pos : ℕ)
    → pos ≤ length file
    → pos + length bs ≤ length (overwrite file pos bs)
unfolding overwrite
length-overwrite-ge file bs pos k =
    let behind = drop (pos + length bs) file in
    let gap : List ℕ = replicate (pos - length file) 0 in
    omega (
      arith,
      length-append (take pos file) (gap ++ (bs ++ behind)),
      length-append gap (bs ++ behind),
      length-append bs behind,
      length-take pos file,
    )

pub take-nil : (n : ℕ) → take {A = ℕ} n [] ≡ []
take-nil zero = refl
take-nil (suc n) = refl

pub take_further :
    (m n : ℕ) (xs : List ℕ)
    → take m xs ++ take n (drop m xs) ≡ take (m + length (take n (drop m xs))) xs
take_further zero zero xs = refl
take_further zero (suc n) [] = refl
take_further zero (suc n) (x ∷ xs) =
    let e : 0 + suc (length (take n xs)) ≡ suc (0 + length (take n xs)) = omega arith in
    rw e (ap (λ t. x ∷ t) (take_further 0 n xs))
take_further (suc m) n [] = rw (take-nil n) (sym (take-nil (suc m + 0)))
take_further (suc m) n (x ∷ xs) =
    let l = length (take n (drop m xs)) in
    let e : suc m + l ≡ suc (m + l) = omega arith in rw e (ap (λ t. x ∷ t) (take_further m n xs))

pub take_beyond : (n : ℕ) (xs : List ℕ) → length xs ≤ n → take n xs ≡ xs
take_beyond n [] h = take-nil n
take_beyond zero (x ∷ xs) h = elim h [ ]
take_beyond (suc n) (x ∷ xs) h = ap (λ t. x ∷ t) (take_beyond n xs (omega arith))

pub no_bytes_left : (xs : List ℕ) → length xs ≡ 0 → xs ≡ []
no_bytes_left [] e = refl
no_bytes_left (x ∷ xs) e = absurd (omega arith)
