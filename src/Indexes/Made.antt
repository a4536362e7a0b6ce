-- ===== src/Indexes/Made.antt =====
-- A creating search of an index (`idx_bucket` of database/src/table.c).
use writeonce.Common.{
  ℕ, zero, suc, ◌+◌, ◌*◌, ◌<◌, ◌≡◌, refl, ◌∙◌, sym, ap, subst, Bool, true, false, Option, none,
  some, List, [], ◌∷◌, ◌++◌, length, get_or, set, replicate, if◌then◌else◌, length-append,
  length-replicate, get_or-append_right, eq-cases, eq→==, ne→==, inl, inr, arith,
}
use writeonce.Wire.{Memory}
use writeonce.Probing.{
  Bucket, Table, Probe, found, vacancy, spinning, vacant, seek, rehash, put_at, rebuilt,
}
use writeonce.Probing.Placed.{IsLive}
use writeonce.Probing.Room.{EndsBelow}
use writeonce.Probing.Entries.{seek-assoc, val_of}
use writeonce.Probing.Store.{
  entry, Filled, fresh, filled, Grown, Put, rebuilt-Grown, no_buckets, put_at-Put, walk_ends,
}
use writeonce.Indexes.{Ibucket, no_bucket, DbIndex, own, no_hash, make_bucket}
use writeonce.Indexes.Sound.{
  append-IsSized, IsKey, IsNamed, IsIndexed, ids_at, ids_of, Same, key-IsLive, no_hash-skipped,
  no_hash-copied,
}

-- Of two results that are equal, the tables.
pub same_table :
    (a b : Table) → ◌≡◌ {A = Option (Bool × Table)} (some (true, a)) (some (true, b)) → a ≡ b
same_table a b e = cc

-- The first array is in use.
pub first_Grown :
    (t : Table)
    → t.buckets ≡ []
    → t.len ≡ 0
    → Grown own 0 64 t (record { buckets = replicate 64 vacant; len = t.len })
unfolding rehash
first_Grown t none_yet zero_len =
    let (t', run, g) =
      rebuilt-Grown own 0 no_hash t no_hash-skipped no_hash-copied 64
        (6, length-replicate 64 vacant) (omega arith) (fresh none_yet zero_len) in
    let size = eq→== (length t.buckets) 0 (no_buckets t none_yet) in
    subst (λ x. Grown own 0 64 t x)
      (same_table t' (record { buckets = replicate 64 vacant; len = t.len })
        (sym run
          ∙ ap (λ (b : Bool). array (if b then 64 else length t.buckets * 2)) size
          ∙ ap (λ bs. rebuilt_with (rehash own no_hash bs (replicate 64 vacant))) none_yet))
      (subst (λ (b : Bool). Grown own 0 (if b then 64 else length t.buckets * 2) t t') size g)
  where
    rebuilt_with : Option (List Bucket) → Option (Bool × Table)
    rebuilt_with o = rebuilt t o

    array : ℕ → Option (Bool × Table)
    array n = rebuilt_with (rehash own no_hash t.buckets (replicate n vacant))

pub index-Same : (ix : DbIndex) → IsIndexed ix → Same ix ix
index-Same ix h = record { sound = h; unique = refl; cols = refl; ids = λ k nz. refl }

pub trans-Same : (a b c : DbIndex) → Same a b → Same b c → Same a c
trans-Same a b c p q = record {
  sound = q.sound;
  unique = q.unique ∙ p.unique;
  cols = q.cols ∙ p.cols;
  ids = λ k nz. q.ids k nz ∙ p.ids k nz;
}

-- Another array with the same entries.
pub retabled :
    (ix : DbIndex) (t : Table)
    → IsIndexed ix
    → Filled own 0 t
    → ((k : ℕ) → IsLive own 0 k → entry t k ≡ entry ix.table k)
    → Same ix (record ix { table = t })
retabled ix t sound f entries = record {
  sound = record {
    probed = filled f;
    named =
        λ k nz. subst (IsNamed ix.lists k) (sym (entries k (key-IsLive k nz))) (sound.named k nz);
    sized = sound.sized;
  };
  unique = refl;
  cols = refl;
  ids = λ k nz. ap (ids_at ix.lists) (entries k (key-IsLive k nz));
}

-- Memory was refused, or the hash has a bucket; no list of ids has changed.
abbrev pub IsMade : Memory → DbIndex → ℕ → Option ℕ → DbIndex → Type 0
IsMade mem ix h none ix' = Same ix ix' × ((n : ℕ) × (mem n ≡ false))
IsMade mem ix h (some p) ix' = Same ix ix' × (entry ix'.table h ≡ some p)

get_or-append_left :
    {A : Type 0} (xs ys : List A) (i : ℕ) (d : A)
    → i < length xs
    → get_or (xs ++ ys) i d ≡ get_or xs i d
get_or-append_left [] ys i d low = absurd (omega (arith, low))
get_or-append_left (x ∷ xs) ys zero d low = refl
get_or-append_left (x ∷ xs) ys (suc i) d low = get_or-append_left xs ys i d (omega (arith, low))

module _ (ix : DbIndex) (h : ℕ) (nz : IsKey h) (sound : IsIndexed ix)
    (f : Filled own 0 ix.table) where
  abbrev new_bucket : Ibucket
  new_bucket = record { hash = h; ids = []; cap = 0 }

  abbrev longer : List Ibucket
  longer = ix.lists ++ (new_bucket ∷ [])

  kept_bucket :
      (k : ℕ) (o : Option ℕ)
      → IsNamed ix.lists k o
      → IsNamed longer k o × (ids_at longer o ≡ ids_at ix.lists o)
  kept_bucket k none p = (tt, refl)
  kept_bucket k (some p) (low, name) =
      let same = get_or-append_left ix.lists (new_bucket ∷ []) p no_bucket low in
      (
        (
          omega (arith, low, length-append ix.lists (new_bucket ∷ [])),
          ap (λ (b : Ibucket). b.hash) same ∙ name,
        ),
        ap (λ (b : Ibucket). b.ids) same,
      )

  last_bucket : get_or longer (length ix.lists) no_bucket ≡ new_bucket
  last_bucket =
      get_or-append_right ix.lists (new_bucket ∷ []) (length ix.lists) 0 no_bucket (omega arith)

  new-IsMade :
      (mem : Memory) (t : Table)
      → Put own 0 ix.table t h (length ix.lists)
      → entry ix.table h ≡ none
      → IsMade mem ix h (some (length ix.lists)) (record ix { table = t; lists = longer })
  new-IsMade mem t put absent = (
    record {
      sound = record {
        probed = filled put.sound;
        named = λ k nz_k. (at k nz_k).0;
        sized = append-IsSized ix.lists new_bucket (omega arith, omega arith) sound.sized;
      };
      unique = refl;
      cols = refl;
      ids = λ k nz_k. (at k nz_k).1;
    },
    put.entries h (key-IsLive h nz)
        ∙ ap (λ (b : Bool). if b then some (length ix.lists) else entry ix.table h)
            (eq→== h h refl),
  )
    where
      at :
          (k : ℕ)
          → IsKey k
          → IsNamed longer k (entry t k) × (ids_at longer (entry t k) ≡ ids_of ix k)
      at k nz_k = elim (eq-cases k h) [
        | inl same ↦
            let e : entry t k ≡ some (length ix.lists) =
              put.entries k (key-IsLive k nz_k)
              ∙ ap (λ (b : Bool). if b then some (length ix.lists) else entry ix.table k)
                  (eq→== k h same) in
            subst (λ o. IsNamed longer k o × (ids_at longer o ≡ ids_of ix k)) (sym e)
              (
                (
                  omega (arith, length-append ix.lists (new_bucket ∷ [])),
                  ap (λ (b : Ibucket). b.hash) last_bucket ∙ sym same,
                ),
                ap (λ (b : Ibucket). b.ids) last_bucket
                    ∙ sym (ap (ids_of ix) same ∙ ap (ids_at ix.lists) absent),
              )
        | inr other ↦
            let e : entry t k ≡ entry ix.table k =
              put.entries k (key-IsLive k nz_k)
              ∙ ap (λ (b : Bool). if b then some (length ix.lists) else entry ix.table k)
                  (ne→== k h other) in
            subst (λ o. IsNamed longer k o × (ids_at longer o ≡ ids_of ix k)) (sym e)
              (kept_bucket k (entry ix.table k) (sound.named k nz_k))
      ]

  pub in_room-IsMade :
      (mem : Memory)
      → suc ix.table.len < length ix.table.buckets
      → (o : Option ℕ) × (ix' : DbIndex) × (make_bucket ix h (seek own ix.table.buckets h)
          ≡ some (o, ix'))
        × IsMade mem ix h o ix'
  unfolding make_bucket put_at
  in_room-IsMade mem spacious =
      by_end (seek own ix.table.buckets h) refl (walk_ends own 0 ix.table h f)
    where
      stands : val_of ix.table.buckets (seek own ix.table.buckets h) ≡ entry ix.table h
      stands =
          seek-assoc own 0 ix.table.buckets h f.placed (key-IsLive h nz)
            (walk_ends own 0 ix.table h f)

      by_end :
          (r : Probe)
          → seek own ix.table.buckets h ≡ r
          → EndsBelow (length ix.table.buckets) r
          → (o : Option ℕ) × (ix' : DbIndex) × (make_bucket ix h r ≡ some (o, ix'))
            × IsMade mem ix h o ix'
      by_end (found j) e low = (
        some (get_or ix.table.buckets j vacant).val,
        ix,
        refl,
        (index-Same ix sound, sym stands ∙ ap (val_of ix.table.buckets) e),
      )
      by_end (vacancy j) e low =
          let (t', run, put) =
            put_at-Put own 0 ix.table h (key-IsLive h nz) f (length ix.lists) spacious in
          let t : Table = record {
            buckets = set ix.table.buckets j (record { key = h; val = length ix.lists });
            len = ix.table.len + 1;
          } in
          (
            some (length ix.lists),
            _,
            refl,
            new-IsMade mem t
                (subst (λ x. Put own 0 ix.table x h (length ix.lists))
                  (same_table t' t (sym run ∙ ap (put_at ix.table h (length ix.lists)) e)) put)
                (sym stands ∙ ap (val_of ix.table.buckets) e),
          )
      by_end spinning e low = elim low [ ]
