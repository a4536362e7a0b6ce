-- ===== src/Containers/Keys.antt =====
-- Keys of a map, and a search after one entry is written (runtime/src/cont.c).
use writeonce.Common.{
  ℕ, zero, suc, ◌≡◌, refl, ◌∙◌, sym, ap, ap₂, Bool, true, false, ◌&&◌, Option, none, some, List, [],
  ◌∷◌, ◌++◌, get_or, set, ◌==◌, if◌then◌else◌, Bool-cases, ==→eq, eq→==, inl, inr,
}
use writeonce.Engine.{kind_byte, text}
use writeonce.Containers.{Entry, str_eq, key_eq, one_on, key_index, no_pair, val_where}

str_eq-eq : (a b : List ℕ) → str_eq a b ≡ true → a ≡ b
unfolding str_eq
str_eq-eq [] [] e = refl
str_eq-eq [] (b ∷ bs) e = absurd (clash e)
  where
    clash : false ≡ true → ⊥
    clash e = cc
str_eq-eq (a ∷ rest) [] e = absurd (clash e)
  where
    clash : false ≡ true → ⊥
    clash e = cc
str_eq-eq (a ∷ rest) (b ∷ bs) e = by_head (a == b) refl (str_eq-eq rest bs) e
  where
    by_head :
        (t : Bool)
        → (a == b) ≡ t
        → (str_eq rest bs ≡ true → rest ≡ bs)
        → (t && str_eq rest bs) ≡ true
        → a ∷ rest ≡ b ∷ bs
    by_head true same tail e = ap₂ (λ x xs. x ∷ xs) (==→eq a b same) (tail e)
    by_head false same tail e = cc

str_eq_refl : (a : List ℕ) → str_eq a a ≡ true
unfolding str_eq
str_eq_refl [] = refl
str_eq_refl (a ∷ rest) = rw (eq→== a a refl) (str_eq_refl rest)

module _ (store : ℕ → List ℕ) (kind : ℕ) where
  -- Equal keys are equal to the same keys.
  key_eq_trans :
      (a b c : ℕ) → key_eq store kind a b ≡ true → key_eq store kind a c ≡ key_eq store kind b c
  unfolding key_eq
  key_eq_trans a b c e = elim (Bool-cases (kind == kind_byte text)) [
    | inl t ↦ rw t (ap (λ s. str_eq s (store c)) (str_eq-eq (store a) (store b) (rw t at e)))
    | inr t ↦ rw t (ap (λ (i : ℕ). i == c) (==→eq a b (rw t at e)))
  ]

  key_eq_refl : (a : ℕ) → key_eq store kind a a ≡ true
  unfolding key_eq
  key_eq_refl a = elim (Bool-cases (kind == kind_byte text)) [
    | inl t ↦ rw t (str_eq_refl (store a))
    | inr t ↦ rw t (eq→== a a refl)
  ]

  key_eq-sym : (a b : ℕ) → key_eq store kind a b ≡ true → key_eq store kind b a ≡ true
  key_eq-sym a b e = sym (key_eq_trans a b a e) ∙ key_eq_refl a

  abbrev pub look : List Entry → ℕ → Option ℕ
  look es k = val_where store es (key_index store kind es k)

  look-cons :
      (e : Entry) (es : List Entry) (k : ℕ)
      → look (e ∷ es) k ≡ (if key_eq store kind e.key k then some e.val else look es k)
  unfolding key_index
  look-cons e es k = elim (Bool-cases (key_eq store kind e.key k)) [
    | inl here ↦ rw here refl
    | inr other ↦ rw other (on (key_index store kind es k))
  ]
    where
      on : (r : Option ℕ) → val_where store (e ∷ es) (one_on store r) ≡ val_where store es r
      on none = refl
      on (some i) = refl

  -- A lookup goes past an entry of another key.
  past :
      (e : Entry) (es es' : List Entry) (k v j : ℕ)
      → key_eq store kind e.key k ≡ false
      → look es' j ≡ (if key_eq store kind k j then some v else look es j)
      → look (e ∷ es') j ≡ (if key_eq store kind k j then some v else look (e ∷ es) j)
  past e es es' k v j other h = look-cons e es' j ∙ elim (Bool-cases (key_eq store kind e.key j)) [
    | inr away ↦
        rw (away, h)
          (ap (λ o. if key_eq store kind k j then some v else o)
            (sym (look-cons e es j ∙ ap (λ t. if t then some e.val else look es j) away)))
    | inl here ↦
        let apart : key_eq store kind k j ≡ false = elim (Bool-cases (key_eq store kind k j)) [
          | inr f ↦ f
          | inl same ↦
              absurd (clash (sym (key_eq_trans e.key j k here ∙ key_eq-sym k j same) ∙ other))
        ] in
        rw (here, apart)
          (sym (look-cons e es j ∙ ap (λ t. if t then some e.val else look es j) here))
  ]
    where
      clash : true ≡ false → ⊥
      clash e = cc

  pub look-set :
      (es : List Entry) (k v i j : ℕ)
      → key_index store kind es k ≡ some i
      → look (set es i (record (get_or es i (no_pair store)) { val = v })) j
        ≡ (if key_eq store kind k j then some v else look es j)
  unfolding key_index
  look-set [] k v i j e = absurd (no_entry e)
    where
      no_entry : none ≡ some i → ⊥
      no_entry e = cc
  look-set (x ∷ es) k v i j e =
      by_head (key_eq store kind x.key k) refl (key_index store kind es k) refl i e
        (λ i' found. look-set es k v i' j found)
    where
      by_head :
          (t : Bool)
          → key_eq store kind x.key k ≡ t
          → (r : Option ℕ) → key_index store kind es k ≡ r
          → (i : ℕ) → (if t then some 0 else one_on store r) ≡ some i
          → ((i' : ℕ)
              → key_index store kind es k ≡ some i'
              → look (set es i' (record (get_or es i' (no_pair store)) { val = v })) j
                ≡ (if key_eq store kind k j then some v else look es j))
          → look (set (x ∷ es) i (record (get_or (x ∷ es) i (no_pair store)) { val = v })) j
            ≡ (if key_eq store kind k j then some v else look (x ∷ es) j)
      by_head true here r at zero e tail =
          look-cons (record x { val = v }) es j
          ∙ ap (λ t. if t then some v else look es j) (key_eq_trans x.key k j here)
          ∙ twice (key_eq store kind k j)
          ∙ ap (λ o. if key_eq store kind k j then some v else o)
              (sym (
                look-cons x es j
                ∙ ap (λ t. if t then some x.val else look es j) (key_eq_trans x.key k j here)))
        where
          twice :
              (b : Bool)
              → (if b then some v else look es j)
                ≡ (if b then some v else if b then some x.val else look es j)
          twice true = refl
          twice false = refl
      by_head true here r at (suc i) e tail = absurd (clash e)
        where
          clash : Path (Option ℕ) (some 0) (some (suc i)) → ⊥
          clash e = cc
      by_head false other none at i e tail = absurd (clash e)
        where
          clash : none ≡ some i → ⊥
          clash e = cc
      by_head false other (some i') at zero e tail = absurd (clash e)
        where
          clash : some (suc i') ≡ some zero → ⊥
          clash e = cc
      by_head false other (some i') at (suc i) e tail =
          past x es (set es i (record (get_or es i (no_pair store)) { val = v })) k v j other
            (tail i (at ∙ ap (λ (n : ℕ). some n) (below e)))
        where
          below : some (suc i') ≡ some (suc i) → i' ≡ i
          below e = cc

  pub look-append :
      (es : List Entry) (k v j : ℕ)
      → key_index store kind es k ≡ none
      → look (es ++ (record { key = k; val = v } ∷ [])) j
        ≡ (if key_eq store kind k j then some v else look es j)
  unfolding key_index
  look-append [] k v j e = look-cons (record { key = k; val = v }) [] j
  look-append (x ∷ es) k v j e =
      by_head (key_eq store kind x.key k) refl (key_index store kind es k) refl e
        (look-append es k v j)
    where
      by_head :
          (t : Bool)
          → key_eq store kind x.key k ≡ t
          → (r : Option ℕ) → key_index store kind es k ≡ r
          → (if t then some 0 else one_on store r) ≡ none
          → (key_index store kind es k ≡ none
              → look (es ++ (record { key = k; val = v } ∷ [])) j
                ≡ (if key_eq store kind k j then some v else look es j))
          → look (x ∷ (es ++ (record { key = k; val = v } ∷ []))) j
            ≡ (if key_eq store kind k j then some v else look (x ∷ es) j)
      by_head true here r at e tail = absurd (clash e)
        where
          clash : Path (Option ℕ) (some 0) none → ⊥
          clash e = cc
      by_head false other none at e tail =
          past x es (es ++ (record { key = k; val = v } ∷ [])) k v j other (tail at)
      by_head false other (some i) at e tail = absurd (clash e)
        where
          clash : some (suc i) ≡ none → ⊥
          clash e = cc
