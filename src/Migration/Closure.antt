-- ===== src/Migration/Closure.antt =====
-- The loop of `wo_schema_diff` over the classes that embed a changed class (database/src/wal.c).
use writeonce.Common.{
  ℕ, zero, suc, ◌+◌, Bool, true, false, not, ◌||◌, ◌&&◌, Option, none, some, List, [], ◌∷◌, length,
  get_or, set, ltb, ◌==◌, if◌then◌else◌,
}
use writeonce.Engine.{kind_byte, owned, multi, map}
use writeonce.Schema.{SchemaField, SchemaClass}
use writeonce.Migration.{Poison, embeds_changed, MigClass, no_ref, poisoned}

-- kind == WO_K_OWNED || kind == WO_K_MULTI || kind == WO_K_MAP
unfoldable pub embeds : ℕ → Bool
embeds kind = kind == kind_byte owned || (kind == kind_byte multi || kind == kind_byte map)

abbrev pub has_poison : MigClass → Bool
has_poison mc = elim mc.poison [ none ↦ false | some p ↦ true ]

abbrev pub is_dirty : MigClass → Bool
is_dirty mc = has_poison mc || mc.changed

unfoldable pub any_dirty : List MigClass → Bool
any_dirty [] = false
any_dirty (mc ∷ mcs) = is_dirty mc || any_dirty mcs

abbrev pub no_entry : MigClass
no_entry = record { new_cid = none; poison = none; old_field_cnt = 0; fmap = none; changed = false }

-- The test of one field of the closure; the plan has an entry for each old class.
unfoldable pub is_tainted : List MigClass → SchemaField → Bool
unfolding embeds any_dirty
is_tainted plan f =
    if embeds f.kind
    then if not (f.fclass == no_ref) && ltb f.fclass (length plan)
      then is_dirty (get_or plan f.fclass no_entry)
      else if f.kind == kind_byte owned
      then any_dirty plan
      else false
    else false

unfoldable pub find_tainted : List MigClass → List SchemaField → Option (List ℕ)
unfolding is_tainted
find_tainted plan [] = none
find_tainted plan (f ∷ fs) = if is_tainted plan f then some f.name else find_tainted plan fs

-- One class of a round: whether it goes again, and the plan.
unfoldable pub close_class :
    (Poison → Bool) → SchemaClass → ℕ → List MigClass → Bool × List MigClass
unfolding find_tainted
close_class told ok c plan =
    let mc = get_or plan c no_entry in
    if has_poison mc then (false, plan) else elim (find_tainted plan ok.fields) [
      | none ↦ (false, plan)
      | some name ↦ (true, set plan c (poisoned told mc (embeds_changed ok.name name)))
    ]

unfoldable pub close_round :
    (Poison → Bool) → List SchemaClass → ℕ → List MigClass → Bool × List MigClass
unfolding close_class
close_round told [] c plan = (false, plan)
close_round told (ok ∷ oks) c plan =
    let (again, plan1) = close_class told ok c plan in
    let (again', plan2) = close_round told oks (c + 1) plan1 in (again || again', plan2)

unfoldable pub close_loop :
    ℕ → (Poison → Bool) → List SchemaClass → List MigClass → Option (List MigClass)
unfolding close_round
close_loop zero told oks plan = none
close_loop (suc fuel) told oks plan =
    let (again, plan') = close_round told oks 0 plan in
    let rest = close_loop fuel told oks plan' in if again then rest else some plan'
