-- ===== src/Probing/Entries.antt =====
-- The buckets as a finite map: a walk finds what a search of all buckets finds, and a write changes
-- the map at one key.
use writeonce.Common.{
  ℕ, zero, suc, ◌<◌, ◌≡◌, ◌≢◌, refl, ◌∙◌, sym, ap, Option, none, some, List, [], ◌∷◌, length,
  get_or, set, replicate, length-set, get_or-set_self, eq-cases, subst, ◌==◌, if◌then◌else◌, eq→==,
  ne→==, inl, inr, arith,
}
use writeonce.Probing.{Bucket, vacant, Probe, found, vacancy, spinning, home, seek}
use writeonce.Probing.Walks.{key_at, probe-IsEnd, IsEnd, key_at-set_self, key_at-set_ne, EndsAt}
use writeonce.Probing.Room.{EndsBelow}
use writeonce.Probing.Placed.{IsLive, IsPlaced, set-IsPlaced, end_key, other_key}

abbrev pub val_at : List Bucket → ℕ → ℕ
val_at bs j = (get_or bs j vacant).val

-- The value of a key, by a search of all buckets.
unfoldable pub assoc : List Bucket → ℕ → Option ℕ
assoc [] key = none
assoc (b ∷ bs) key = if b.key == key then some b.val else assoc bs key

-- Where the search ends.
pub data Sought (bs : List Bucket) (key : ℕ) : Type 0 where
  absent : assoc bs key ≡ none → ((i : ℕ) → i < length bs → key_at bs i ≢ key) → Sought bs key
  present :
      (i : ℕ)
      → i < length bs
      → key_at bs i ≡ key
      → assoc bs key ≡ some (val_at bs i)
      → Sought bs key

pub assoc-cases : (bs : List Bucket) (key : ℕ) → Sought bs key
unfolding assoc
assoc-cases [] key = absent refl (λ i h. elim h [ ])
assoc-cases (b ∷ bs) key = elim (eq-cases b.key key) [
  | inl here ↦ present 0 (omega arith) here (rw (eq→== b.key key here) refl)
  | inr other ↦ on (assoc-cases bs key) other
]
  where
    on : Sought bs key → b.key ≢ key → Sought (b ∷ bs) key
    on (absent e none_at) other = absent (rw (ne→== b.key key other) e) (nowhere none_at other)
      where
        nowhere :
            ((i : ℕ) → i < length bs → key_at bs i ≢ key)
            → b.key ≢ key
            → (i : ℕ) → i < suc (length bs)
            → key_at (b ∷ bs) i ≢ key
        nowhere none_at other zero h = other
        nowhere none_at other (suc i) h = none_at i (omega arith)
    on (present i low same e) other =
        present (suc i) (omega arith) same (rw (ne→== b.key key other) e)

pub assoc-replicate : (n key : ℕ) → key ≢ 0 → assoc (replicate n vacant) key ≡ none
unfolding assoc
assoc-replicate zero key nz = refl
assoc-replicate (suc n) key nz = rw (ne→== 0 key (λ e. nz (sym e))) (assoc-replicate n key nz)

assoc-set_ne :
    (bs : List Bucket) (p : ℕ) (b : Bucket) (key : ℕ)
    → key_at bs p ≢ key
    → b.key ≢ key
    → assoc (set bs p b) key ≡ assoc bs key
unfolding assoc
assoc-set_ne [] p b key h k = refl
assoc-set_ne (c ∷ bs) zero b key h k = rw (ne→== b.key key k, ne→== c.key key h) refl
assoc-set_ne (c ∷ bs) (suc p) b key h k =
    ap (λ t. if c.key == key then some c.val else t) (assoc-set_ne bs p b key h k)

-- The value that a walk ends at.
abbrev pub val_of : List Bucket → Probe → Option ℕ
val_of bs (found p) = some (val_at bs p)
val_of bs (vacancy p) = none
val_of bs spinning = none

module _ (mix : ℕ → ℕ) (dead : ℕ) where
  pub stored_end :
      (bs : List Bucket) (key : ℕ)
      → IsPlaced mix dead bs
      → IsLive mix dead key
      → (i : ℕ) → i < length bs
      → key_at bs i ≡ key
      → seek mix bs key ≡ found i
  stored_end bs key placed live i low same =
      ap (seek mix bs) (sym same) ∙ placed i low (subst (IsLive mix dead) (sym same) live)

  -- The walk of a key that may be stored finds what the search of all buckets finds.
  pub seek-assoc :
      (bs : List Bucket) (key : ℕ)
      → IsPlaced mix dead bs
      → IsLive mix dead key
      → EndsBelow (length bs) (seek mix bs key)
      → val_of bs (seek mix bs key) ≡ assoc bs key
  seek-assoc bs key placed live ends = by_case (seek mix bs key) refl ends (assoc-cases bs key)
    where
      by_case :
          (r : Probe)
          → seek mix bs key ≡ r
          → EndsBelow (length bs) r
          → Sought bs key
          → val_of bs r ≡ assoc bs key
      by_case (found p) e low (absent is none_at) = absurd (
          none_at p low (subst (IsEnd bs key) e (probe-IsEnd (length bs) bs key (home mix bs key))))
      by_case (vacancy p) e low (absent is none_at) = sym is
      by_case spinning e low c = elim low [ ]
      by_case (found p) e low (present i inside same is) =
          ap (val_of bs) (sym e ∙ stored_end bs key placed live i inside same) ∙ sym is
      by_case (vacancy p) e low (present i inside same is) =
          ap (val_of bs) (sym e ∙ stored_end bs key placed live i inside same) ∙ sym is

  -- A value is written where the walk of its key ended.
  pub assoc-put :
      (bs : List Bucket) (key v p k : ℕ)
      → IsPlaced mix dead bs
      → IsLive mix dead key
      → p < length bs
      → EndsAt p (seek mix bs key)
      → k ≢ 0
      → assoc (set bs p (record { key = key; val = v })) k
        ≡ (if k == key then some v else assoc bs k)
  assoc-put bs key v p k placed live room at nz = elim (eq-cases k key) [
    | inl same ↦ rw (eq→== k key same) (ap (assoc new) same ∙ now (assoc-cases new key))
    | inr other ↦ rw (ne→== k key other) (
        assoc-set_ne bs p b k
          (elim (end_key mix dead bs key p at) [
            | inl empty ↦ λ e. nz (sym e ∙ empty)
            | inr same ↦ λ e. other (sym e ∙ same)
          ])
          (λ e. other (sym e)))
  ]
    where
      b : Bucket
      b = record { key = key; val = v }

      new : List Bucket
      new = set bs p b

      room' : p < length new
      room' = rw (length-set bs p b) room

      here : key_at new p ≡ key
      here = key_at-set_self bs p b room

      placed' : IsPlaced mix dead new
      placed' = set-IsPlaced mix dead bs key p b placed live room at (live.0, inl refl)

      same_place : (i : ℕ) → found i ≡ found p → i ≡ p
      same_place i e = cc

      now : Sought new key → assoc new key ≡ some v
      now (absent is none_at) = absurd (none_at p room' here)
      now (present i low same is) =
          let at_p = stored_end new key placed' live p room' here in
          let at_i = stored_end new key placed' live i low same in
          is
          ∙ ap (λ j. some (val_at new j)) (same_place i (sym at_i ∙ at_p))
          ∙ ap (λ (c : Bucket). some c.val) (get_or-set_self bs p b vacant room)

  -- The bucket of a key is marked as deleted.
  pub assoc-delete :
      (bs : List Bucket) (key p k : ℕ)
      → IsPlaced mix dead bs
      → IsLive mix dead key
      → IsLive mix dead k
      → p < length bs
      → seek mix bs key ≡ found p
      → assoc (set bs p (record { key = dead; val = 0 })) k
        ≡ (if k == key then none else assoc bs k)
  assoc-delete bs key p k placed live live_k room end = elim (eq-cases k key) [
    | inl same ↦ rw (eq→== k key same) (ap (assoc new) same ∙ gone (assoc-cases new key))
    | inr other ↦
        rw (ne→== k key other)
          (assoc-set_ne bs p b k (λ e. other (sym e ∙ here)) (λ e. live_k.1 (sym e)))
  ]
    where
      b : Bucket
      b = record { key = dead; val = 0 }

      new : List Bucket
      new = set bs p b

      here : key_at bs p ≡ key
      here = subst (IsEnd bs key) end (probe-IsEnd (length bs) bs key (home mix bs key))

      gone : Sought new key → assoc new key ≡ none
      gone (absent is none_at) = is
      gone (present i low same is) = absurd (elim (eq-cases p i) [
        | inl at ↦ live.1 (sym same ∙ ap (key_at new) (sym at) ∙ key_at-set_self bs p b room)
        | inr away ↦
            let now = sym (key_at-set_ne bs p i b away) ∙ same in
            other_key mix dead bs key p i placed (subst (EndsAt p) (sym end) refl) away
              (rw (length-set bs p b) at low) (subst (IsLive mix dead) (sym now) live) now
      ])
