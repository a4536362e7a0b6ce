-- ===== src/Indexes/Single.antt =====
-- One index takes the id of a row, and forgets it (database/src/table.c).
use writeonce.Common.{
  ℕ, suc, ◌*◌, ◌%◌, ◌^◌, ◌≤◌, ◌<◌, ==→eq, ==→ne, length-append, ◌≡◌, ◌≢◌, refl, ◌∙◌, sym, ap, subst,
  Bool, true, false, Option, none, some, List, [], ◌∷◌, ◌++◌, length, get_or, set, ◌==◌,
  if◌then◌else◌, length-set, get_or-set_self, get_or-set_ne, eq-cases, Bool-cases, eq→==, ne→==,
  inl, inr, arith,
}
use writeonce.Wire.{Memory, IsCapped}
use writeonce.Slots.Sound.{capped-below}
use writeonce.Indexes.Listed.{length-swap_out}
use writeonce.Engine.{Kind, Value}
use writeonce.Slots.{Row}
use writeonce.Hashing.{idx_hash, not_zero-ne, idx_loop}
use writeonce.Probing.Store.{entry}
use writeonce.Indexes.{
  Ibucket, no_bucket, DbIndex, idx_bucket, bucket_at, put_bucket, append_id, swap_out, drop_id,
  columns, row_hash, add_index,
}
use writeonce.Indexes.Sound.{
  IsSized, bucket-IsSized, set-IsSized, IsKey, IsNamed, IsIndexed, ids_at, ids_of, Same,
  idx_bucket-entry,
}
use writeonce.Indexes.Made.{IsMade}
use writeonce.Indexes.Growth.{idx_bucket-IsMade}

-- An index with the columns of another whose bucket of a hash has the ids that are given.
pub record Changed (ix ix' : DbIndex) (ids : ℕ → List ℕ) : Type 0 where
  pub sound : IsIndexed ix'
  pub unique : ix'.unique ≡ ix.unique
  pub cols : ix'.cols ≡ ix.cols
  pub listed : (h : ℕ) → IsKey h → ids_of ix' h ≡ ids h

-- The hash of a row is not 0.
pub row_hash-IsKey :
    (address : Value → ℕ) (kinds : ℕ → Kind) (r : Row) (ix : DbIndex)
    → IsKey (row_hash address kinds r ix)
unfolding idx_hash
row_hash-IsKey address kinds r ix =
    not_zero-ne (idx_loop kinds (columns address r.slots) ix.cols 0 0x9e3779b97f4a7c15)

module _ (ix : DbIndex) (sound : IsIndexed ix) (h : ℕ) (nz : IsKey h) where
  -- The bucket of a hash is written.
  put_bucket-Changed :
      (p : ℕ) (b : Ibucket) (ids : ℕ → List ℕ)
      → entry ix.table h ≡ some p
      → b.hash ≡ (bucket_at ix p).hash
      → b.ids ≡ ids h
      → IsSized b
      → ((k : ℕ) → k ≢ h → ids k ≡ ids_of ix k)
      → Changed ix (put_bucket ix p b) ids
  put_bucket-Changed p b ids at named here fits others = record {
    sound = record {
      probed = sound.probed;
      named = λ k nz_k. (of_hash k nz_k).0;
      sized = set-IsSized ix.lists p b fits sound.sized;
    };
    unique = refl;
    cols = refl;
    listed = λ k nz_k. (of_hash k nz_k).1;
  }
    where
      stands : IsNamed ix.lists h (some p)
      stands = subst (IsNamed ix.lists h) at (sound.named h nz)

      self : get_or (set ix.lists p b) p no_bucket ≡ b
      self = get_or-set_self ix.lists p b no_bucket stands.0

      elsewhere :
          (k : ℕ)
          → k ≢ h
          → (o : Option ℕ) → IsNamed ix.lists k o
          → IsNamed (set ix.lists p b) k o × (ids_at (set ix.lists p b) o ≡ ids_at ix.lists o)
      elsewhere k other none n = (tt, refl)
      elsewhere k other (some q) (low, name) =
          let apart : p ≢ q = λ e.
            other (sym name ∙ ap (λ j. (get_or ix.lists j no_bucket).hash) (sym e) ∙ stands.1) in
          let same = get_or-set_ne ix.lists p q b no_bucket apart in
          (
            (omega (arith, low, length-set ix.lists p b), ap (λ (x : Ibucket). x.hash) same ∙ name),
            ap (λ (x : Ibucket). x.ids) same,
          )

      of_hash :
          (k : ℕ)
          → IsKey k
          → IsNamed (set ix.lists p b) k (entry ix.table k)
            × (ids_at (set ix.lists p b) (entry ix.table k) ≡ ids k)
      of_hash k nz_k = elim (eq-cases k h) [
        | inl same ↦
            subst (λ o. IsNamed (set ix.lists p b) k o × (ids_at (set ix.lists p b) o ≡ ids k))
              (sym (ap (entry ix.table) same ∙ at))
              (
                (
                  omega (arith, stands.0, length-set ix.lists p b),
                  ap (λ (x : Ibucket). x.hash) self ∙ named ∙ stands.1 ∙ sym same,
                ),
                ap (λ (x : Ibucket). x.ids) self ∙ here ∙ ap ids (sym same),
              )
        | inr other ↦
            let (n, e) = elsewhere k other (entry ix.table k) (sound.named k nz_k) in
            (n, e ∙ sym (others k other))
      ]

-- The ids of the buckets with one more in that of `h`, and with one less.
abbrev pub plus_id : DbIndex → ℕ → ℕ → ℕ → List ℕ
plus_id ix h id k = if k == h then ids_of ix k ++ (id ∷ []) else ids_of ix k

abbrev pub minus_id : DbIndex → ℕ → ℕ → ℕ → List ℕ
minus_id ix h id k = if k == h then swap_out id (ids_of ix k) else ids_of ix k

-- What an index is after it was to take an id.
abbrev pub IsAdded : Memory → DbIndex → ℕ → ℕ → Bool → DbIndex → Type 0
IsAdded mem ix h id true ix' = Changed ix ix' (plus_id ix h id)
IsAdded mem ix h id false ix' = Same ix ix' × ((n : ℕ) × (mem n ≡ false))

module _ (mem : Memory) (ix : DbIndex) (h : ℕ) (nz : IsKey h) (id : ℕ) where
  abbrev IsAppended : Option (Bool × DbIndex) → Type 0
  IsAppended out =
      (good : Bool) × (ix' : DbIndex) × (out ≡ some (good, ix')) × IsAdded mem ix h id good ix'

  append_id-IsAdded :
      IsCapped mem
      → (o : Option ℕ) (ix1 : DbIndex) → IsMade mem ix h o ix1
      → IsAppended (append_id mem id (some (o, ix1)))
  unfolding append_id
  append_id-IsAdded capped none ix1 (same, why) = (false, ix1, refl, (same, why))
  append_id-IsAdded capped (some p) ix1 (same, at) =
      let b = bucket_at ix1 p in
      let ncap = if b.cap == 0 then 4 else b.cap * 2 % 2 ^ 32 in
      let (fits, low) = bucket-IsSized ix1.lists p same.sound.sized in
      elim (Bool-cases (length b.ids == b.cap)) [
        | inr room ↦ rw room (
          true,
          _,
          refl,
          added b.cap (omega (arith, fits, longer, ==→ne (length b.ids) b.cap room), low),
        )
        | inl full ↦ elim (Bool-cases (mem (ncap * 8))) [
          | inr denied ↦ rw (full, denied) (false, ix1, refl, (same, (ncap * 8, denied)))
          | inl granted ↦
              rw (full, granted)
                (
                  true,
                  _,
                  refl,
                  added ncap (
                    ground (arith, longer, ==→eq (length b.ids) b.cap full, low),
                    omega (arith, capped-below mem capped (ncap * 8) granted),
                  ),
                )
        ]
      ]
    where
      now : (bucket_at ix1 p).ids ≡ ids_of ix h
      now = sym (ap (ids_at ix1.lists) at) ∙ same.ids h nz

      longer : length ((bucket_at ix1 p).ids ++ (id ∷ [])) ≡ suc (length (bucket_at ix1 p).ids)
      longer = omega (arith, length-append (bucket_at ix1 p).ids (id ∷ []))

      added :
          (cap : ℕ)
          → (length ((bucket_at ix1 p).ids ++ (id ∷ [])) ≤ cap) × (cap < 2 ^ 31)
          → Changed ix
              (put_bucket ix1 p (record {
                hash = (bucket_at ix1 p).hash;
                ids = (bucket_at ix1 p).ids ++ (id ∷ []);
                cap = cap;
              }))
              (plus_id ix h id)
      added cap fits =
          let c =
            put_bucket-Changed ix1 same.sound h nz p
              (record {
                hash = (bucket_at ix1 p).hash;
                ids = (bucket_at ix1 p).ids ++ (id ∷ []);
                cap = cap;
              })
              (plus_id ix1 h id) at refl
              (ap (λ l. l ++ (id ∷ [])) (sym (ap (ids_at ix1.lists) at))
                ∙ sym (
                    ap (λ (b : Bool). if b then ids_of ix1 h ++ (id ∷ []) else ids_of ix1 h)
                      (eq→== h h refl)))
              fits
              (λ k other.
                ap (λ (b : Bool). if b then ids_of ix1 k ++ (id ∷ []) else ids_of ix1 k)
                  (ne→== k h other)) in
          record {
            sound = c.sound;
            unique = c.unique ∙ same.unique;
            cols = c.cols ∙ same.cols;
            listed = λ k nz_k.
                c.listed k nz_k ∙ ap (λ l. if k == h then l ++ (id ∷ []) else l) (same.ids k nz_k);
          }

  pub drop_id-Changed :
      IsIndexed ix
      → (ix' : DbIndex) × (drop_id id (idx_bucket mem ix h false) ≡ some ix')
        × Changed ix ix' (minus_id ix h id)
  unfolding drop_id
  drop_id-Changed sound =
      let (ix', run, c) = by_entry (entry ix.table h) refl in
      (ix', ap (drop_id id) (idx_bucket-entry ix mem h nz sound) ∙ run, c)
    where
      other_id : (k : ℕ) → k ≢ h → minus_id ix h id k ≡ ids_of ix k
      other_id k other =
          ap (λ (b : Bool). if b then swap_out id (ids_of ix k) else ids_of ix k) (ne→== k h other)

      here : minus_id ix h id h ≡ swap_out id (ids_of ix h)
      here =
          ap (λ (b : Bool). if b then swap_out id (ids_of ix h) else ids_of ix h) (eq→== h h refl)

      by_entry :
          (o : Option ℕ)
          → entry ix.table h ≡ o
          → (ix' : DbIndex) × (drop_id id (some (o, ix)) ≡ some ix')
            × Changed ix ix' (minus_id ix h id)
      by_entry none absent = (
        ix,
        refl,
        record { sound = sound; unique = refl; cols = refl; listed = λ k nz_k. unlisted k },
      )
        where
          unlisted : (k : ℕ) → ids_of ix k ≡ minus_id ix h id k
          unlisted k = elim (eq-cases k h) [
            | inl same ↦
                let e : ids_of ix k ≡ [] = ap (ids_of ix) same ∙ ap (ids_at ix.lists) absent in
                rw (eq→== k h same, e) refl
            | inr other ↦ sym (other_id k other)
          ]
      by_entry (some p) at = (
        _,
        refl,
        put_bucket-Changed ix sound h nz p
            (record {
              hash = (bucket_at ix p).hash;
              ids = swap_out id (bucket_at ix p).ids;
              cap = (bucket_at ix p).cap;
            })
            (minus_id ix h id) at refl
            (ap (λ o. swap_out id (ids_at ix.lists o)) (sym at) ∙ sym here)
            (
              omega (
                arith,
                (bucket-IsSized ix.lists p sound.sized).0,
                length-swap_out id (bucket_at ix p).ids,
              ),
              (bucket-IsSized ix.lists p sound.sized).1,
            )
            other_id,
      )

pub add_index-IsAdded :
    (address : Value → ℕ) (kinds : ℕ → Kind) (r : Row) (mem : Memory) (ix : DbIndex)
    → IsCapped mem
    → IsIndexed ix
    → (good : Bool) × (ix' : DbIndex) × (add_index address kinds r mem ix ≡ some (good, ix'))
      × IsAdded mem ix (row_hash address kinds r ix) r.id good ix'
unfolding add_index
add_index-IsAdded address kinds r mem ix capped sound =
    let h = row_hash address kinds r ix in
    let nz = row_hash-IsKey address kinds r ix in
    let (o, ix1, made, is) = idx_bucket-IsMade mem h nz ix sound in
    let (good, ix', run, added) = append_id-IsAdded mem ix h nz r.id capped o ix1 is in
    (good, ix', ap (append_id mem r.id) made ∙ run, added)
