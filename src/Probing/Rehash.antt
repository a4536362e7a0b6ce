-- ===== src/Probing/Rehash.antt =====
-- The loop that moves the buckets into a larger table keeps the map.
use writeonce.Common.{
  ℕ, suc, ◌+◌, ◌≤◌, ◌<◌, ◌≡◌, ◌≢◌, refl, ◌∙◌, sym, ap, Bool, true, false, Option, none, some, List,
  [], ◌∷◌, length, set, replicate, length-set, length-replicate, eq-cases, Bool-cases, subst, ◌==◌,
  if◌then◌else◌, eq→==, ne→==, ◌⊎◌, inl, inr, arith,
}
use writeonce.Probing.{
  Bucket, vacant, Probe, found, vacancy, spinning, probe_vacant, home, seek, place, rehash,
}
use writeonce.Probing.Walks.{key_at, probe-IsEnd, IsEnd, EndsAt, probe_vacant-probe}
use writeonce.Probing.Room.{
  IsSized, home-lt, EndsBelow, seek-EndsBelow, used, used-set, used-replicate, empty_bucket,
}
use writeonce.Probing.Placed.{IsLive, IsPlaced, set-IsPlaced, replicate-IsPlaced}
use writeonce.Probing.Entries.{
  assoc, Sought, absent, present, assoc-cases, assoc-replicate, assoc-put, seek-assoc, val_of,
  val_at, stored_end,
}

-- In a table with an empty bucket each walk ends at a bucket.
pub seek_ends :
    (mix : ℕ → ℕ) (bs : List Bucket) (key : ℕ)
    → IsSized bs
    → used bs < length bs
    → EndsBelow (length bs) (seek mix bs key)
seek_ends mix bs key sized few =
    let (e, inside, empty) = empty_bucket bs few in
    seek-EndsBelow bs sized e inside empty key (home mix bs key) (home-lt mix bs key sized)

used-cons : (b : Bucket) (bs : List Bucket) → b.key ≢ 0 → used (b ∷ bs) ≡ suc (used bs)
unfolding used
used-cons b bs nz = rw (ne→== b.key 0 nz) refl

used-tail : (b : Bucket) (bs : List Bucket) → used bs ≤ used (b ∷ bs)
unfolding used
used-tail b bs = ground arith

pub used_nil : used [] ≡ 0
unfolding used
used_nil = refl

abbrev pub either : Option ℕ → Option ℕ → Option ℕ
either none y = y
either (some x) y = some x

module _ (mix : ℕ → ℕ) (dead : ℕ) where
  -- No key that may be stored stands in two buckets.
  abbrev IsUnique : List Bucket → Type 0
  IsUnique bs =
      (i j : ℕ)
      → i < length bs
      → j < length bs
      → IsLive mix dead (key_at bs i)
      → key_at bs i ≡ key_at bs j
      → i ≡ j

  IsPlaced-IsUnique : (bs : List Bucket) → IsPlaced mix dead bs → IsUnique bs
  IsPlaced-IsUnique bs placed i j hi hj live same =
      same_place
        (sym (placed i hi live) ∙ stored_end mix dead bs (key_at bs i) placed live j hj (sym same))
    where
      same_place : found i ≡ found j → i ≡ j
      same_place e = cc

  abbrev IsDistinct : List Bucket → Type 0
  IsDistinct [] = Unit
  IsDistinct (b ∷ bs) = (IsLive mix dead b.key → assoc bs b.key ≡ none) × IsDistinct bs

  IsUnique-IsDistinct : (bs : List Bucket) → IsUnique bs → IsDistinct bs
  IsUnique-IsDistinct [] unique = tt
  IsUnique-IsDistinct (b ∷ bs) unique = (
    λ live. alone live (assoc-cases bs b.key),
    IsUnique-IsDistinct bs
        λ i j hi hj live same. pred (unique (suc i) (suc j) (omega arith) (omega arith) live same),
  )
    where
      pred : {i j : ℕ} → suc i ≡ suc j → i ≡ j
      pred e = omega arith

      alone : IsLive mix dead b.key → Sought bs b.key → assoc bs b.key ≡ none
      alone live (absent is none_at) = is
      alone live (present i low same is) =
          absurd (far (unique 0 (suc i) (omega arith) (omega arith) live (sym same)))
        where
          far : 0 ≡ suc i → ⊥
          far e = omega arith

  -- `nb'` is `nb` with the bucket `b`.
  record Added (b : Bucket) (nb nb' : List Bucket) : Type 0 where
    same_size : length nb' ≡ length nb
    placed : IsPlaced mix dead nb'
    one_more : used nb' ≡ suc (used nb)
    entries : (k : ℕ) → k ≢ 0 → assoc nb' k ≡ (if k == b.key then some b.val else assoc nb k)

  place-Added :
      (b : Bucket) (nb : List Bucket)
      → IsSized nb
      → IsPlaced mix dead nb
      → used nb < length nb
      → IsLive mix dead b.key
      → assoc nb b.key ≡ none
      → (nb' : List Bucket) × (place mix b nb (probe_vacant (length nb) nb (home mix nb b.key))
          ≡ some nb')
        × Added b nb nb'
  place-Added b nb sized placed few live new =
      by_end (seek mix nb b.key) refl (seek_ends mix nb b.key sized few)
    where
      no_entry : (p : ℕ) → some (val_at nb p) ≡ none → ⊥
      no_entry p e = cc

      by_end :
          (r : Probe)
          → seek mix nb b.key ≡ r
          → EndsBelow (length nb) r
          → (nb' : List Bucket) × (place mix b nb (probe_vacant (length nb) nb (home mix nb b.key))
              ≡ some nb')
            × Added b nb nb'
      by_end (found p) e low = absurd (
          no_entry p (
            sym (ap (val_of nb) e)
            ∙ seek-assoc mix dead nb b.key placed live (seek_ends mix nb b.key sized few)
            ∙ new))
      by_end (vacancy p) e low =
          let at : EndsAt p (seek mix nb b.key) = subst (EndsAt p) (sym e) refl in
          let empty =
            subst (IsEnd nb b.key) e (probe-IsEnd (length nb) nb b.key (home mix nb b.key)) in
          (
            set nb p b,
            ap (place mix b nb)
                (probe_vacant-probe (length nb) nb b.key (home mix nb b.key) p live.0 e),
            record {
              same_size = length-set nb p b;
              placed = set-IsPlaced mix dead nb b.key p b placed live low at (live.0, inl refl);
              one_more =
                  used-set nb p b low live.0
                  ∙ ap (λ t. if t then suc (used nb) else used nb) (eq→== (key_at nb p) 0 empty);
              entries = λ k nz. assoc-put mix dead nb b.key b.val p k placed live low at nz;
            },
          )
      by_end spinning e low = elim low [ ]

  -- `nb'` is `nb` with the entries of `os`.
  pub record Rebuilt (os nb nb' : List Bucket) : Type 0 where
    pub same_size : length nb' ≡ length nb
    pub placed : IsPlaced mix dead nb'
    pub few : used nb' ≤ used nb + used os
    pub entries : (k : ℕ) → IsLive mix dead k → assoc nb' k ≡ either (assoc nb k) (assoc os k)

  -- `skip` tells the keys that may not be stored.
  module _ (skip : ℕ → Bool)
      (skipped : (k : ℕ) → skip k ≡ true → (j : ℕ) → IsLive mix dead j → j ≢ k)
      (copied : (k : ℕ) → skip k ≡ false → IsLive mix dead k) where
    rehash-Rebuilt :
        (os nb : List Bucket)
        → IsSized nb
        → IsPlaced mix dead nb
        → used nb + length os < length nb
        → IsDistinct os
        → ((k : ℕ) → IsLive mix dead k → (assoc os k ≡ none) ⊎ (assoc nb k ≡ none))
        → (nb' : List Bucket) × (rehash mix skip os nb ≡ some nb') × Rebuilt os nb nb'
    unfolding rehash assoc
    rehash-Rebuilt [] nb sized placed room distinct fresh = (
      nb,
      refl,
      record {
        same_size = refl;
        placed = placed;
        few = omega (arith, used_nil);
        entries = λ k live. no_more (assoc nb k);
      },
    )
      where
        no_more : (x : Option ℕ) → x ≡ either x none
        no_more none = refl
        no_more (some v) = refl
    rehash-Rebuilt (b ∷ os) nb sized placed room distinct fresh = elim (Bool-cases (skip b.key)) [
      | inl left ↦
          let passed : (k : ℕ) → IsLive mix dead k → assoc (b ∷ os) k ≡ assoc os k = λ k live.
            ap (λ t. if t then some b.val else assoc os k)
              (ne→== b.key k (λ e. skipped b.key left k live (sym e))) in
          let (nb', run, built) =
            rehash-Rebuilt os nb sized placed (omega arith) distinct.1 (λ k live.
              elim (fresh k live) [ inl e ↦ inl (sym (passed k live) ∙ e) | inr e ↦ inr e ]) in
          (
            nb',
            rw (left, rehash) run,
            record {
              same_size = built.same_size;
              placed = built.placed;
              few = omega (arith, built.few, used-tail b os);
              entries =
                  λ k live. built.entries k live ∙ ap (either (assoc nb k)) (sym (passed k live));
            },
          )
      | inr yes_copy ↦
          let live = copied b.key yes_copy in
          let new : assoc nb b.key ≡ none = is_new live (fresh b.key live) in
          let (nb1, run1, added) = place-Added b nb sized placed (omega arith) live new in
          let sized1 : IsSized nb1 = (sized.0, added.same_size ∙ sized.1) in
          let (nb', run, built) =
            rehash-Rebuilt os nb1 sized1 added.placed
              (omega (arith, added.one_more, added.same_size)) distinct.1
              (λ k live_k. still_fresh k live_k live nb1 (added.entries k live_k.0)) in
          (
            nb',
            rw (yes_copy, run1, rehash) run,
            record {
              same_size = built.same_size ∙ added.same_size;
              placed = built.placed;
              few = omega (arith, built.few, added.one_more, used-cons b os live.0);
              entries = λ k live_k.
                  built.entries k live_k
                  ∙ ap (λ t. either t (assoc os k)) (added.entries k live_k.0)
                  ∙ moved k new;
            },
          )
    ]
      where
        is_new :
            IsLive mix dead b.key
            → (assoc (b ∷ os) b.key ≡ none) ⊎ (assoc nb b.key ≡ none)
            → assoc nb b.key ≡ none
        is_new live (inl e) = absurd (some_none (rw (eq→== b.key b.key refl) at e))
          where
            some_none : some b.val ≡ none → ⊥
            some_none e = cc
        is_new live (inr e) = e

        still_fresh :
            (k : ℕ)
            → IsLive mix dead k
            → IsLive mix dead b.key
            → (nb1 : List Bucket) → assoc nb1 k ≡ (if k == b.key then some b.val else assoc nb k)
            → (assoc os k ≡ none) ⊎ (assoc nb1 k ≡ none)
        still_fresh k live_k live nb1 e = elim (eq-cases k b.key) [
          | inl same ↦ inl (ap (assoc os) same ∙ distinct.0 live)
          | inr other ↦
              let back : b.key ≢ k = λ d. other (sym d) in
              elim (fresh k live_k) [
                | inl away ↦ inl (rw (ne→== b.key k back) at away)
                | inr away ↦ inr (rw (ne→== k b.key other) at e ∙ away)
              ]
        ]

        moved :
            (k : ℕ)
            → assoc nb b.key ≡ none
            → either (if k == b.key then some b.val else assoc nb k) (assoc os k)
              ≡ either (assoc nb k) (assoc (b ∷ os) k)
        moved k new = elim (eq-cases k b.key) [
          | inl same ↦
              rw (eq→== k b.key same, eq→== b.key k (sym same))
                (sym (ap (λ t. either t (some b.val)) (ap (assoc nb) same ∙ new)))
          | inr other ↦ rw (ne→== k b.key other, ne→== b.key k (λ d. other (sym d))) refl
        ]

    -- All of a placed table moves into an empty one that is larger.
    pub rehash-replicate :
        (os : List Bucket) (n : ℕ)
        → IsPlaced mix dead os
        → IsSized (replicate n vacant)
        → length os < n
        → (nb' : List Bucket) × (rehash mix skip os (replicate n vacant) ≡ some nb')
          × (length nb' ≡ n)
          × IsPlaced mix dead nb'
          × (used nb' ≤ used os)
          × ((k : ℕ) → IsLive mix dead k → assoc nb' k ≡ assoc os k)
    rehash-replicate os n placed sized room =
        let start = replicate n vacant in
        let size = length-replicate n vacant in
        let (nb', run, built) =
          rehash-Rebuilt os start sized (replicate-IsPlaced mix dead n)
            (omega (arith, used-replicate n, size))
            (IsUnique-IsDistinct os (IsPlaced-IsUnique os placed))
            (λ k live. inr (assoc-replicate n k live.0)) in
        (
          nb',
          run,
          built.same_size ∙ size,
          built.placed,
          omega (arith, built.few, used-replicate n),
          λ k live.
              built.entries k live ∙ ap (λ t. either t (assoc os k)) (assoc-replicate n k live.0),
        )
