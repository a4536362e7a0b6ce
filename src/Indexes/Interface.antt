-- ===== src/Indexes/Interface.antt =====
-- The indexes as the rows of a table use them (database/src/table.c).
use writeonce.Common.{ℕ, List, All}
use writeonce.Wire.{Memory, IsCapped}
use writeonce.Engine.{Kind, Value}
use writeonce.Rows.{Indexing}
use writeonce.Indexes.{DbIndex, idx_add_row, idx_remove_row}
use writeonce.Indexes.Sound.{IsIndexed}
use writeonce.Indexes.Whole.{
  idx_add_row-IsRowAdded, idx_remove_row-Dropping, Dropping-IsIndexed, IsRowAdded-IsIndexed,
}

-- The indexes as the rows use them.
abbrev pub db_indexes : (Value → ℕ) → (ℕ → Kind) → (mem : Memory) → IsCapped mem → Indexing
db_indexes address kinds mem capped = record {
  Index = List DbIndex;
  IsIndex = All IsIndexed;
  add_row = λ borrow ixs r. idx_add_row address kinds r mem borrow ixs;
  remove_row = λ ixs r. idx_remove_row address kinds r mem ixs;
  add_ends = λ borrow ends ixs r h.
      (let (e, ixs', run, is) =
          idx_add_row-IsRowAdded address kinds r mem capped borrow ends ixs h in
        (e, ixs', run, IsRowAdded-IsIndexed address kinds r mem borrow ixs h e ixs' is));
  remove_ends = λ ixs r h.
      (let (ixs', run, each) = idx_remove_row-Dropping address kinds r mem ixs h in
        (ixs', run, Dropping-IsIndexed address kinds r mem ixs ixs' each));
}
