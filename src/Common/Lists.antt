-- ===== src/Common/Lists.antt =====
-- Lists measured and cut by native numbers, under the library's names.
use Prim.Native.Nat.{ℕ, zero, suc, ◌+◌, ◌-◌, ◌<◌, min}
use mathlib.Core.Logic.{◌≢◌}
use mathlib.Core.Path.{◌≡◌, refl, ap, sym, ◌∙◌}
use mathlib.Core.Option.{Option, none, some}
use mathlib.Core.List.{List, [], ◌∷◌, ◌++◌}
use native.Mathlib.Omega.{arith}

module _ {ℓ} {A : Type ℓ} where
  abbrev pub length : List A → ℕ
  length [] = 0
  length (x ∷ xs) = suc (length xs)

  abbrev pub get_or : List A → ℕ → A → A
  get_or [] i d = d
  get_or (x ∷ xs) zero d = x
  get_or (x ∷ xs) (suc i) d = get_or xs i d

  abbrev pub get_elem? : List A → ℕ → Option A
  get_elem? [] i = none
  get_elem? (x ∷ xs) zero = some x
  get_elem? (x ∷ xs) (suc i) = get_elem? xs i

  abbrev pub take : ℕ → List A → List A
  take zero xs = []
  take (suc n) [] = []
  take (suc n) (x ∷ xs) = x ∷ take n xs

  abbrev pub drop : ℕ → List A → List A
  drop zero xs = xs
  drop (suc n) [] = []
  drop (suc n) (x ∷ xs) = drop n xs

  abbrev pub All {κ} : (A → Type κ) → List A → Type κ
  All P [] = Unit {κ}
  All P (x ∷ xs) = P x × All P xs

  pub length-append : (xs ys : List A) → length (xs ++ ys) ≡ length xs + length ys
  length-append [] ys = omega arith
  length-append (x ∷ xs) ys = omega (arith, length-append xs ys)

  pub length-take : (n : ℕ) (xs : List A) → length (take n xs) ≡ min n (length xs)
  length-take zero xs = omega arith
  length-take (suc n) [] = omega arith
  length-take (suc n) (x ∷ xs) = omega (arith, length-take n xs)

  pub length-drop : (n : ℕ) (xs : List A) → length (drop n xs) ≡ length xs - n
  length-drop zero xs = omega arith
  length-drop (suc n) [] = omega arith
  length-drop (suc n) (x ∷ xs) = omega (arith, length-drop n xs)

  pub take-append-drop : (n : ℕ) (xs : List A) → take n xs ++ drop n xs ≡ xs
  take-append-drop zero xs = refl
  take-append-drop (suc n) [] = refl
  take-append-drop (suc n) (x ∷ xs) = rw (take-append-drop n xs)

  -- A cut exactly behind the first of two parts.
  pub take-length_append : (n : ℕ) (xs ys : List A) → length xs ≡ n → take n (xs ++ ys) ≡ xs
  take-length_append zero [] ys e = refl
  take-length_append (suc n) [] ys e = absurd (omega arith)
  take-length_append zero (x ∷ xs) ys e = absurd (omega arith)
  take-length_append (suc n) (x ∷ xs) ys e = rw (take-length_append n xs ys (omega arith))

  pub drop-length_append : (n : ℕ) (xs ys : List A) → length xs ≡ n → drop n (xs ++ ys) ≡ ys
  drop-length_append zero [] ys e = refl
  drop-length_append (suc n) [] ys e = absurd (omega arith)
  drop-length_append zero (x ∷ xs) ys e = absurd (omega arith)
  drop-length_append (suc n) (x ∷ xs) ys e = drop-length_append n xs ys (omega arith)

  pub drop-nil : (n : ℕ) → drop n [] ≡ []
  drop-nil zero = refl
  drop-nil (suc n) = refl

  pub drop-drop : (m n : ℕ) (xs : List A) → drop n (drop m xs) ≡ drop (m + n) xs
  drop-drop zero n xs = ap (λ k. drop k xs) (omega arith)
  drop-drop (suc m) n [] = drop-nil n ∙ sym (drop-nil (suc m + n))
  drop-drop (suc m) n (x ∷ xs) =
      let e : suc m + n ≡ suc (m + n) = omega arith in rw e (drop-drop m n xs)

  abbrev pub replicate : ℕ → A → List A
  replicate zero a = []
  replicate (suc n) a = a ∷ replicate n a

  pub get_or-append_right :
      (xs ys : List A) (i j : ℕ) (d : A) → i ≡ length xs + j → get_or (xs ++ ys) i d ≡ get_or ys j d
  get_or-append_right [] ys i j d e = ap (λ k. get_or ys k d) (omega arith)
  get_or-append_right (x ∷ xs) ys zero j d e = absurd (omega arith)
  get_or-append_right (x ∷ xs) ys (suc i) j d e = get_or-append_right xs ys i j d (omega arith)

  pub get_or-replicate : (n i : ℕ) (a : A) → get_or (replicate n a) i a ≡ a
  get_or-replicate zero i a = refl
  get_or-replicate (suc n) zero a = refl
  get_or-replicate (suc n) (suc i) a = get_or-replicate n i a

  pub All-append {κ} : (P : A → Type κ) (xs ys : List A) → All P xs → All P ys → All P (xs ++ ys)
  All-append P [] ys h k = k
  All-append P (x ∷ xs) ys h k = (h.0, All-append P xs ys h.1 k)

  abbrev pub set : List A → ℕ → A → List A
  set [] i a = []
  set (x ∷ xs) zero a = a ∷ xs
  set (x ∷ xs) (suc i) a = x ∷ set xs i a

  pub length-set : (xs : List A) (i : ℕ) (a : A) → length (set xs i a) ≡ length xs
  length-set [] i a = refl
  length-set (x ∷ xs) zero a = refl
  length-set (x ∷ xs) (suc i) a = ap suc (length-set xs i a)

  pub get_or-set_self :
      (xs : List A) (i : ℕ) (a d : A) → i < length xs → get_or (set xs i a) i d ≡ a
  get_or-set_self [] i a d h = absurd (omega arith)
  get_or-set_self (x ∷ xs) zero a d h = refl
  get_or-set_self (x ∷ xs) (suc i) a d h = get_or-set_self xs i a d (omega arith)

  pub get_or-set_ne :
      (xs : List A) (i j : ℕ) (a d : A) → i ≢ j → get_or (set xs i a) j d ≡ get_or xs j d
  get_or-set_ne [] i j a d h = refl
  get_or-set_ne (x ∷ xs) zero zero a d h = absurd (h refl)
  get_or-set_ne (x ∷ xs) zero (suc j) a d h = refl
  get_or-set_ne (x ∷ xs) (suc i) zero a d h = refl
  get_or-set_ne (x ∷ xs) (suc i) (suc j) a d h = get_or-set_ne xs i j a d (λ e. h (ap suc e))

  pub length-replicate : (n : ℕ) (a : A) → length (replicate n a) ≡ n
  length-replicate zero a = refl
  length-replicate (suc n) a = ap suc (length-replicate n a)
