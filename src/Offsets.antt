-- ===== src/Offsets.antt =====
-- The map from the offsets of a log to those of its migrated copy, `migmap` of database/src/wal.c.
-- The record is the one of Probing, with `k` and `v` as one list and `cap` its length.
pub mod Lookup
use writeonce.Common.{
  ℕ, ◌+◌, ◌*◌, ◌%◌, ◌^◌, Bool, true, false, Option, none, some, length, get_or, replicate, leb,
  ◌==◌, if◌then◌else◌,
}
use writeonce.Wire.{Memory}
use writeonce.Probing.{
  Table, Probe, found, vacancy, spinning, vacant, put_at, rebuilt, seek, rehash,
}

abbrev pub MigMap : Type 0
MigMap = Table

unfoldable pub spread : ℕ → ℕ
spread x = x * 0x9E3779B97F4A7C15 % 2 ^ 64

-- Keys are stored plus one.
abbrev pub stored : ℕ → ℕ
stored key = (key + 1) % 2 ^ 64

-- if (!m->k[i]) continue;
unfoldable pub unused : ℕ → Bool
unused k = k == 0

-- The part of `migmap_put` that enlarges the arrays. `none`: the loops do not end.
unfoldable pub migmap_grow : Memory → MigMap → Option (Bool × MigMap)
unfolding spread unused rehash
migmap_grow mem m =
    let nc = if length m.buckets == 0 then 1024 else length m.buckets * 2 in
    if mem (nc * 8)
    then rebuilt m (rehash spread unused m.buckets (replicate nc vacant))
    else some (false, m)

unfoldable pub migmap_put_grown : ℕ → ℕ → Option (Bool × MigMap) → Option (Bool × MigMap)
unfolding put_at spread
migmap_put_grown key val none = none
migmap_put_grown key val (some (false, m)) = some (false, m)
migmap_put_grown key val (some (true, m)) =
    put_at m (stored key) val (seek spread m.buckets (stored key))

-- The Boolean is `true` for the result 0.
unfoldable pub migmap_put : Memory → MigMap → ℕ → ℕ → Option (Bool × MigMap)
unfolding migmap_grow migmap_put_grown
migmap_put mem m key val =
    migmap_put_grown key val
      (if leb (length m.buckets) (m.len * 2) then migmap_grow mem m else some (true, m))

-- The value where a walk has ended: the inner `none` for the result -1.
unfoldable pub mapped_at : MigMap → Probe → Option (Option ℕ)
mapped_at m (found j) = some (some (get_or m.buckets j vacant).val)
mapped_at m (vacancy j) = some none
mapped_at m spinning = none

unfoldable pub migmap_get : MigMap → ℕ → Option (Option ℕ)
unfolding mapped_at spread
migmap_get m key =
    if length m.buckets == 0 then some none else mapped_at m (seek spread m.buckets (stored key))
