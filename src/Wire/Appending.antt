-- ===== src/Wire/Appending.antt =====
-- What a write to a `wbuf` does (`wput` of database/src/wal.c): all of it or a recorded failure.
use writeonce.Common.{
  ℕ, zero, suc, ◌+◌, ◌*◌, ◌≤◌, ◌<◌, ◌≡◌, true, false, List, [], ◌++◌, append-nil, append_assoc,
  length, length-append, arith, ◌==◌, if◌then◌else◌,
}
use writeonce.Wire.{Memory, Wbuf, double_until, grown, wput}

pub double_until-ge :
    (fuel nc need : ℕ) → 0 < nc → need ≤ fuel + nc → need ≤ double_until fuel nc need
unfolding double_until
double_until-ge zero nc need h k = omega arith
double_until-ge (suc fuel) nc need h k =
    ground (arith, double_until-ge fuel (nc * 2) need (omega arith) (omega arith))

-- The doubling loop ends with room for what is asked.
pub grown-ge : (first cap need : ℕ) → 0 < first → need ≤ grown first cap need
unfolding grown
grown-ge first cap need h =
    double_until-ge need (if cap == 0 then first else cap * 2) need (ground arith) (ground arith)

-- If no allocation failed up to `w'`, it holds the bytes of `w` and `p` behind them.
pub record Appends (w w' : Wbuf) (p : List ℕ) : Type 0 where
  pub start_good : w'.oom ≡ false → w.oom ≡ false
  pub appended : w'.oom ≡ false → w'.bytes ≡ w.bytes ++ p

pub wput-Appends : (mem : Memory) (w : Wbuf) (p : List ℕ) → Appends w (wput mem w p) p
unfolding wput
wput-Appends mem w p = record { start_good = ground arith; appended = ground arith }

pub Appends-nil : (w : Wbuf) → Appends w w []
Appends-nil w = record { start_good = λ h. h; appended = λ h. rw append-nil }

pub Appends-append :
    {w w' w'' : Wbuf} {p q : List ℕ} → Appends w w' p → Appends w' w'' q → Appends w w'' (p ++ q)
Appends-append {w} {w'} {w''} {p} {q} a b = record {
  start_good = λ h. a.start_good (b.start_good h);
  appended = λ h. rw (b.appended h, a.appended (b.start_good h)) (append_assoc w.bytes p q);
}

-- With memory for every request a good buffer stays good.
pub wput-oom :
    (mem : Memory)
    → ((n : ℕ) → mem n ≡ true)
    → (w : Wbuf) (p : List ℕ) → w.oom ≡ false
    → (wput mem w p).oom ≡ false
unfolding wput
wput-oom mem all w p h = ground (arith, all (grown 256 w.cap (length w.bytes + length p)))

-- The bytes fit the capacity, which is what makes the memcpy of `wput` stay inside the buffer.
abbrev pub IsRoomy : Wbuf → Type 0
IsRoomy w = length w.bytes ≤ w.cap

-- A write to a buffer whose bytes fit its capacity leaves one whose bytes fit its capacity, whatever
-- realloc answers.
pub wput-IsRoomy : (mem : Memory) (w : Wbuf) (p : List ℕ) → IsRoomy w → IsRoomy (wput mem w p)
unfolding wput
wput-IsRoomy mem w p h =
    ground
      (arith, length-append w.bytes p, grown-ge 256 w.cap (length w.bytes + length p) (omega arith))
