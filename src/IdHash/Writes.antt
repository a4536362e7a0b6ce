-- ===== src/IdHash/Writes.antt =====
-- What `hput`, `hdel` and the write of an offset do to the entries (database/src/table.c).
use writeonce.Common.{
  ℕ, suc, ◌*◌, ◌<◌, ◌≡◌, refl, ◌∙◌, ap, Bool, true, false, ◌&&◌, Option, some, length, Bool-cases,
  ltb, ◌==◌, if◌then◌else◌, ltb→lt, ◌⊎◌, inl, inr, arith,
}
use writeonce.Wire.{Memory}
use writeonce.Probing.Store.{entry, no_buckets, Filled, fresh, filled, put_at-Put}
use writeonce.IdHash.{IdHash, hmix, deleted, hgrow, put_grown, hput}
use writeonce.IdHash.Sound.{IsId, IsHash, grown_cap, grown_cap-spacious, hgrow-Grown}

-- The entries after a call of `hput`, by its result.
abbrev pub after_put : Bool → IdHash → ℕ → ℕ → ℕ → Option ℕ
after_put good t id v k = if good && k == id then some v else entry t k

module _ (mem : Memory) (t : IdHash) (id v : ℕ) (live : IsId id) where
  put_in_room :
      (t1 : IdHash)
      → Filled hmix deleted t1
      → suc t1.len < length t1.buckets
      → ((k : ℕ) → IsId k → entry t1 k ≡ entry t k)
      → (t' : IdHash) × (put_grown id v (some (true, t1)) ≡ some (true, t'))
        × Filled hmix deleted t'
        × ((k : ℕ) → IsId k → entry t' k ≡ after_put true t id v k)
  unfolding put_grown
  put_in_room t1 f spacious same =
      let (t', run, put) = put_at-Put hmix deleted t1 id live f v spacious in
      (
        t',
        run,
        put.sound,
        λ k live_k. put.entries k live_k ∙ ap (λ e. if k == id then some v else e) (same k live_k),
      )

  grow_put :
      IsHash t
      → ltb (t.len * 10) (length t.buckets * 7) ≡ false
      → (t' : IdHash) × (good : Bool) × (put_grown id v (hgrow mem t) ≡ some (good, t'))
        × IsHash t'
        × ((good ≡ true)
            ⊎ ((ltb (t.len * 10) (length t.buckets * 7) ≡ false)
                × (mem (grown_cap t * 8) ≡ false)
                × (t' ≡ t)))
        × ((k : ℕ) → IsId k → entry t' k ≡ after_put good t id v k)
  unfolding put_grown hgrow
  grow_put sound full = elim (Bool-cases (mem (grown_cap t * 8))) [
    | inl granted ↦
        let (t1, grew, g) = hgrow-Grown mem t sound granted in
        let (t', run, done, entries) =
          put_in_room t1 g.sound (omega (arith, g.same_len, g.size, (grown_cap-spacious t sound).1))
            g.entries in
        (t', true, ap (put_grown id v) grew ∙ run, filled done, inl refl, entries)
    | inr refused ↦ (t, false, rw refused refl, sound, inr (full, refused, refl), λ k live_k. refl)
  ]

  -- A call of `hput` ends. It fails only where the arrays are seven tenths full and memory for larger ones
  -- is refused, and then nothing has changed; else the id has the value and every other row its own.
  pub hput-entry :
      IsHash t
      → (t' : IdHash) × (good : Bool) × (hput mem t id v ≡ some (good, t'))
        × IsHash t'
        × ((good ≡ true)
            ⊎ ((ltb (t.len * 10) (length t.buckets * 7) ≡ false)
                × (mem (grown_cap t * 8) ≡ false)
                × (t' ≡ t)))
        × ((k : ℕ) → IsId k → entry t' k ≡ after_put good t id v k)
  unfolding hput
  hput-entry sound = by_load (ltb (t.len * 10) (length t.buckets * 7)) refl
    where
      in_place :
          IsHash t
          → t.len * 10 < length t.buckets * 7
          → (t' : IdHash) × (good : Bool) × (put_grown id v (some (true, t)) ≡ some (good, t'))
            × IsHash t'
            × ((good ≡ true)
                ⊎ ((ltb (t.len * 10) (length t.buckets * 7) ≡ false)
                    × (mem (grown_cap t * 8) ≡ false)
                    × (t' ≡ t)))
            × ((k : ℕ) → IsId k → entry t' k ≡ after_put good t id v k)
      in_place (fresh none_yet zero_len) room = absurd (omega (arith, room, no_buckets t none_yet))
      in_place (filled f) room =
          let (t', run, done, entries) =
            put_in_room t f (omega (arith, room, f.large)) (λ k live_k. refl) in
          (t', true, run, filled done, inl refl, entries)

      by_load :
          (b : Bool)
          → ltb (t.len * 10) (length t.buckets * 7) ≡ b
          → (t' : IdHash) × (good : Bool) × (put_grown id v
                (if b then some (true, t) else hgrow mem t)
              ≡ some (good, t'))
            × IsHash t'
            × ((good ≡ true)
                ⊎ ((ltb (t.len * 10) (length t.buckets * 7) ≡ false)
                    × (mem (grown_cap t * 8) ≡ false)
                    × (t' ≡ t)))
            × ((k : ℕ) → IsId k → entry t' k ≡ after_put good t id v k)
      by_load true room = in_place sound (ltb→lt (t.len * 10) (length t.buckets * 7) room)
      by_load false full = grow_put sound full
