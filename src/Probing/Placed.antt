-- ===== src/Probing/Placed.antt =====
-- The invariant of the buckets: the walk of a key that is stored ends at its bucket.
use writeonce.Common.{
  ℕ, ◌<◌, ◌≡◌, ◌≢◌, refl, ◌∙◌, sym, ap, List, length, set, replicate, length-set, get_or-replicate,
  eq-cases, subst, ◌⊎◌, inl, inr,
}
use writeonce.Probing.{Bucket, vacant, Probe, found, vacancy, spinning, probe, home, seek}
use writeonce.Probing.Walks.{
  key_at, probe-IsEnd, IsEnd, key_at-set_self, key_at-set_ne, probe-set_ne, probe-set_self, EndsAt,
}

-- `dead` marks a deleted bucket; where nothing is deleted it is 0, as for an empty one.
module _ (mix : ℕ → ℕ) (dead : ℕ) where
  -- A key that may be stored.
  abbrev pub IsLive : ℕ → Type 0
  IsLive key = (key ≢ 0) × (key ≢ dead)

  abbrev pub IsPlaced : List Bucket → Type 0
  IsPlaced bs = (q : ℕ) → q < length bs → IsLive (key_at bs q) → seek mix bs (key_at bs q) ≡ found q

  pub replicate-IsPlaced : (n : ℕ) → IsPlaced (replicate n vacant)
  replicate-IsPlaced n q h live =
      absurd (live.0 (ap (λ (b : Bucket). b.key) (get_or-replicate n q vacant)))

  seek-set :
      (bs : List Bucket) (p : ℕ) (b : Bucket) (key : ℕ)
      → seek mix (set bs p b) key ≡ probe (length bs) (set bs p b) key (home mix bs key)
  seek-set bs p b key = rw (length-set bs p b) refl

  -- The key at the end of a walk.
  pub end_key :
      (bs : List Bucket) (key p : ℕ)
      → EndsAt p (seek mix bs key)
      → (key_at bs p ≡ 0) ⊎ (key_at bs p ≡ key)
  end_key bs key p e = by_end (seek mix bs key) e (probe-IsEnd (length bs) bs key (home mix bs key))
    where
      by_end : (r : Probe) → EndsAt p r → IsEnd bs key r → (key_at bs p ≡ 0) ⊎ (key_at bs p ≡ key)
      by_end (found q) at stored = inr (ap (key_at bs) (sym at) ∙ stored)
      by_end (vacancy q) at stored = inl (ap (key_at bs) (sym at) ∙ stored)
      by_end spinning at stored = elim at [ ]

  -- Another bucket than the one where the walk of `key` ended holds another key.
  pub other_key :
      (bs : List Bucket) (key p q : ℕ)
      → IsPlaced bs
      → EndsAt p (seek mix bs key)
      → p ≢ q
      → q < length bs
      → IsLive (key_at bs q)
      → key_at bs q ≢ key
  other_key bs key p q placed at ne low live same =
      ne (sym (subst (EndsAt p) (ap (seek mix bs) (sym same) ∙ placed q low live) at))

  -- A bucket is written where the walk of `key` ended: for that key, or as deleted.
  pub set-IsPlaced :
      (bs : List Bucket) (key p : ℕ) (b : Bucket)
      → IsPlaced bs
      → IsLive key
      → p < length bs
      → EndsAt p (seek mix bs key)
      → (b.key ≢ 0) × ((b.key ≡ key) ⊎ (b.key ≡ dead))
      → IsPlaced (set bs p b)
  set-IsPlaced bs key p b placed live room at (nz, what) q low stored = elim (eq-cases p q) [
    | inl here ↦
        let now = ap (key_at (set bs p b)) (sym here) ∙ key_at-set_self bs p b room in
        elim what [
          | inl same ↦
              seek-set bs p b (key_at (set bs p b) q)
              ∙ ap (λ k. probe (length bs) (set bs p b) k (home mix bs k)) (now ∙ same)
              ∙ probe-set_self (length bs) bs p b key (home mix bs key) room live.0 same at
              ∙ ap found here
          | inr gone ↦ absurd (stored.1 (now ∙ gone))
        ]
    | inr away ↦
        let now = key_at-set_ne bs p q b away in
        let low' : q < length bs = rw (length-set bs p b) at low in
        let stored' : IsLive (key_at bs q) = rw now at stored in
        let other = other_key bs key p q placed at away low' stored' in
        let k = key_at bs q in
        seek-set bs p b (key_at (set bs p b) q)
        ∙ ap (λ k. probe (length bs) (set bs p b) k (home mix bs k)) now
        ∙ probe-set_ne (length bs) bs p b k (home mix bs k) q room stored'.0
            (elim (end_key bs key p at) [
              | inl empty ↦ λ e. stored'.0 (sym e ∙ empty)
              | inr same ↦ λ e. other (sym e ∙ same)
            ])
            (inr (
              nz,
              elim what [
                | inl same ↦ λ e. other (sym e ∙ same)
                | inr gone ↦ λ e. stored'.1 (sym e ∙ gone)
              ],
            ))
            (placed q low' stored')
  ]
