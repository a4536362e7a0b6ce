-- ===== src/Tests/Replays.antt =====
-- The replay of a log with one inserted row (database/src/wal.c).
use writeonce.Common.{true, ℕ, ◌≡◌, refl, sym, subst, some, ◌⊎◌, List, [], ◌∷◌, All, arith}
use writeonce.Wire.{le_bytes, le_value, rd_u8, rd_u32, rd_u64, reader}
use writeonce.Engine.{scalar, ClassDesc}
use writeonce.Wal.{wal_insert}
use writeonce.Log.{
  frame, frames, log_records, record_loop, scan_record, pread, field_at, check_payload,
}
use writeonce.Log.Frame.{IsPayload}
use writeonce.Log.Torn.{frames-IsByte}
use writeonce.Crc.{crc32}
use writeonce.Rows.{Indexing, RowTable}
use writeonce.Replay.{RecordResult, wal_replay, apply_kind}
use writeonce.Replay.Created.{IsRun}
use writeonce.Replay.Kinds.{IsNew, apply_kind-IsRun}
use writeonce.Replay.Whole.{NamesRow, IsDb, IsReplayed, wal_replay-IsReplayed}
use writeonce.Tests.Records.{limited, limited-IsCapped, are_bytes-IsByte}
use writeonce.Tests.Rows.{indexing, lone_shard, no_rows, no_rows-IsTable, seven-IsId}

abbrev word_class : List ClassDesc
word_class = record { flags = 0; kinds = scalar ∷ [] } ∷ []

abbrev nine : List ℕ
nine = 9 ∷ 0 ∷ 0 ∷ 0 ∷ 0 ∷ 0 ∷ 0 ∷ 0 ∷ []

-- The row 7 with the word 9.
abbrev insertion : List ℕ
insertion = 1 ∷ 0 ∷ 0 ∷ 0 ∷ 0 ∷ 7 ∷ 0 ∷ 0 ∷ 0 ∷ 0 ∷ 0 ∷ 0 ∷ 0 ∷ nine

insertion-IsPayload : IsPayload insertion
insertion-IsPayload = record {
  bytes = are_bytes-IsByte insertion refl;
  some_byte = omega arith;
  small = omega arith;
}

abbrev short_log : List ℕ
short_log = frames (insertion ∷ [])

insertion-NamesRow : NamesRow insertion
unfolding rd_u8 rd_u32 rd_u64
insertion-NamesRow e = seven-IsId

short_log-records : log_records limited short_log ≡ insertion ∷ []
unfolding log_records record_loop scan_record pread field_at check_payload frame le_bytes crc32
    le_value
short_log-records = refl

apply_kind-IsRun_example :
    IsRun indexing no_rows 7
      (IsNew indexing limited lone_shard word_class short_log true no_rows 0 7
        (reader nine)
        wal_insert)
      (apply_kind indexing limited lone_shard word_class short_log true no_rows wal_insert 0 7
        (reader nine))
apply_kind-IsRun_example =
    apply_kind-IsRun indexing limited lone_shard word_class short_log true no_rows 0 7 (reader nine)
      seven-IsId no_rows-IsTable limited-IsCapped (are_bytes-IsByte nine refl)
      (frames-IsByte (insertion ∷ []) (insertion-IsPayload, tt)) wal_insert

wal_replay-IsReplayed_example :
    (r : RecordResult ⊎ ℕ) × (db' : ℕ → RowTable (Indexing.Index indexing)) × (wal_replay indexing
        limited lone_shard word_class short_log true
        (λ c. no_rows)
      ≡ some (r, db'))
    × IsDb indexing limited lone_shard word_class short_log true db'
    × IsReplayed indexing limited lone_shard word_class short_log true
        (log_records limited short_log)
        0
        (λ c. no_rows)
        r
        db'
wal_replay-IsReplayed_example =
    wal_replay-IsReplayed indexing limited lone_shard word_class short_log true limited-IsCapped
      (frames-IsByte (insertion ∷ []) (insertion-IsPayload, tt)) (λ c. no_rows)
      (λ c. no_rows-IsTable)
      (subst (λ l. All NamesRow l) (sym short_log-records) (insertion-NamesRow, tt))
