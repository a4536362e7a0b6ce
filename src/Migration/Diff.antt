-- ===== src/Migration/Diff.antt =====
-- The whole of `wo_schema_diff` (database/src/wal.c).
use writeonce.Common.{
  ℕ, suc, ◌+◌, ◌*◌, Bool, true, false, not, ◌||◌, Option, none, some, List, [], ◌∷◌, length, ◌==◌,
  if◌then◌else◌, max,
}
use writeonce.Wire.{Memory}
use writeonce.Schema.{Schema}
use writeonce.Migration.{Poison, MigClass, diff_classes}
use writeonce.Migration.Closure.{has_poison, close_loop}

pub record MigPlan : Type 0 where
  pub classes : List MigClass
  pub identity : Bool

-- The result -1, a plan, or a closure loop that does not end.
pub data Diffed : Type 0 where
  no_memory : Diffed
  endless : Diffed
  planned : MigPlan → Diffed

abbrev pub keeps_cid : ℕ → Option ℕ → Bool
keeps_cid c none = false
keeps_cid c (some cid) = cid == c

-- The last loop: no class is poisoned, moved or changed.
unfoldable pub is_identity : ℕ → List MigClass → Bool
is_identity c [] = true
is_identity c (mc ∷ mcs) =
    if has_poison mc || (not (keeps_cid c mc.new_cid) || mc.changed)
    then false
    else is_identity (c + 1) mcs

abbrev pub plan_of : Option (List MigClass) → Diffed
plan_of none = endless
plan_of (some mcs) = planned (record { classes = mcs; identity = is_identity 0 mcs })

-- sizeof(wo_mig_class)
abbrev pub mig_class_size : ℕ
mig_class_size = 40

unfoldable pub schema_diff : Memory → (Poison → Bool) → Schema → Schema → Diffed
unfolding diff_classes close_loop is_identity
schema_diff mem told osc nsc =
    if not (mem (max (length osc.classes) 1 * mig_class_size))
    then no_memory
    else elim (diff_classes mem told osc nsc osc.classes) [
      | none ↦ no_memory
      | some mcs ↦ plan_of (close_loop (suc (length osc.classes)) told osc.classes mcs)
    ]
