-- ===== src/Wal/Repoint.antt =====
-- The pending re-points of a log (`wo_wal_pend_repoint` and `wo_wal_repoint_offset1` of
-- database/src/wal.c).
use writeonce.Common.{
  ℕ, zero, suc, ◌+◌, ◌≤◌, ◌<◌, ◌≡◌, refl, ◌∙◌, ap, true, ◌&&◌, none, some, List, [], ◌∷◌, ◌++◌,
  length, get_elem?, length-append, ◌==◌, if◌then◌else◌, arith,
}
use writeonce.Wire.{Memory}
use writeonce.Wal.{Pend, Wal, push_pend, wal_pend_repoint, latest, wal_repoint_offset1}

get_elem?-append :
    (l : List Pend) (p : Pend) (i : ℕ) → i < length l → get_elem? (l ++ p ∷ []) i ≡ get_elem? l i
get_elem?-append [] p i h = absurd (omega arith)
get_elem?-append (q ∷ l) p zero h = refl
get_elem?-append (q ∷ l) p (suc i) h = get_elem?-append l p i (omega arith)

get_elem?-last : (l : List Pend) (p : Pend) → get_elem? (l ++ p ∷ []) (length l) ≡ some p
get_elem?-last [] p = refl
get_elem?-last (q ∷ l) p = get_elem?-last l p

latest-append :
    (l : List Pend) (p : Pend) (cid id n : ℕ)
    → n ≤ length l
    → latest (l ++ p ∷ []) cid id n ≡ latest l cid id n
unfolding latest
latest-append l p cid id zero h = refl
latest-append l p cid id (suc n) h =
    rw (get_elem?-append l p n (omega arith), latest)
      (ap
        (λ t. elim (get_elem? l n) [
          | none ↦ 0
          | some q ↦ if q.cid == cid && q.id == id then q.off + 1 else t
        ])
        (latest-append l p cid id n (omega arith)))

latest-last :
    (l : List Pend) (p : Pend) (cid id : ℕ)
    → latest (l ++ p ∷ []) cid id (suc (length l))
      ≡ (if p.cid == cid && p.id == id then p.off + 1 else latest l cid id (length l))
unfolding latest
latest-last l p cid id =
    rw (get_elem?-last l p, latest)
      (ap (λ t. if p.cid == cid && p.id == id then p.off + 1 else t)
        (latest-append l p cid id (length l) (omega arith)))

pushed :
    (mem : Memory) (w : Wal) (p : Pend)
    → (wal_pend_repoint mem w p).0 ≡ true
    → (wal_pend_repoint mem w p).1.repoint ≡ w.repoint ++ p ∷ []
unfolding wal_pend_repoint push_pend
pushed mem w p good = ground arith

-- After a successful `wo_wal_pend_repoint`, `wo_wal_repoint_offset1` answers with the new entry for
-- its row and for every other row as before.
pub wal_repoint_offset1-pend :
    (mem : Memory) (w : Wal) (p : Pend) (cid id : ℕ)
    → (wal_pend_repoint mem w p).0 ≡ true
    → wal_repoint_offset1 (wal_pend_repoint mem w p).1 cid id
      ≡ (if p.cid == cid && p.id == id then p.off + 1 else wal_repoint_offset1 w cid id)
unfolding wal_repoint_offset1
wal_repoint_offset1-pend mem w p cid id good =
    let size : length (w.repoint ++ p ∷ []) ≡ suc (length w.repoint) =
      omega (arith, length-append w.repoint (p ∷ [])) in
    ap (λ l. latest l cid id (length l)) (pushed mem w p good)
    ∙ ap (latest (w.repoint ++ p ∷ []) cid id) size
    ∙ latest-last w.repoint p cid id
