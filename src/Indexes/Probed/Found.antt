-- ===== src/Indexes/Probed/Found.antt =====
-- A probe finds the row that an index has taken (`wo_idx_probe` of database/src/table.c).
use writeonce.Common.{ℕ, ◌<◌, ◌≡◌, false, Option, some, List}
use writeonce.Wire.{Memory}
use writeonce.Engine.{Kind, Value}
use writeonce.Slots.{Row}
use writeonce.Rows.{Borrow}
use writeonce.Hashing.{bytes_in, word_in}
use writeonce.Indexes.{columns}
use writeonce.Indexes.Listed.{occurs}
use writeonce.Indexes.Unique.{Ends}
use writeonce.Indexes.Probed.{ProbeResult, no_probe, found_ids, no_memory, has_key}

module _ (address : Value → ℕ) (kinds : ℕ → Kind) (mem : Memory) (r : Row) where
  -- The probe gives the id of the row, and of no row with another key.
  abbrev pub IsFound : Borrow → ℕ → ProbeResult → Type 0
  IsFound borrow col no_probe = ⊥
  IsFound borrow col no_memory = (n : ℕ) × (mem n ≡ false)
  IsFound borrow col (found_ids out) =
      (0 < occurs r.id out)
      × ((id : ℕ) (o : Option Row)
          → borrow id ≡ some o
          → has_key address kinds borrow (word_in (columns address r.slots col))
              (bytes_in (columns address r.slots col)) col o
            ≡ false
          → occurs id out ≡ 0)

  module _ (borrow : Borrow) (ends : Ends borrow) (col : ℕ) where
    abbrev key : ℕ
    key = word_in (columns address r.slots col)

    abbrev key_text : Option (List ℕ)
    key_text = bytes_in (columns address r.slots col)
