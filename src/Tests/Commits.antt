-- ===== src/Tests/Commits.antt =====
-- Staging and committing on a concrete log (database/src/wal.c).
use writeonce.Common.{
  ℕ, ◌+◌, ◌-◌, ◌≤◌, ◌≡◌, refl, true, false, some, none, List, [], ◌∷◌, ◌++◌, length, drop,
  length-append, arith,
}
use writeonce.Wire.{Wbuf, wput, wput_u32, grown, double_until, le_bytes}
use writeonce.Log.{frame, log_records}
use writeonce.Log.Frame.{length-frame}
use writeonce.Wal.{
  wal_commit_fatal, count_batch, write_loop, after_write, overwrite, Wal, Answer, wrote,
  interrupted, wal_commit, framed, stage_frame, stage_head, head_for, stage_schema_head, stage,
  wal_next_offset,
}
use writeonce.Wal.Staging.{next_offset-stage}
use writeonce.Wal.Fatal.{Acknowledged, wal_commit_fatal-Acknowledged}
use writeonce.Wal.Commit.{Barrier, IsSynced, wal_commit-Barrier}
use writeonce.Wal.Recovery.{IsLogged, owed, wal_commit-IsLogged}
use writeonce.Tests.Records.{plenty, greeting, last_word, greeting-IsPayload, last_word-IsPayload}

-- A log with one record on disk, and one staged.
abbrev pub running : Wal
running = record {
  file = frame greeting ++ 0 ∷ 0 ∷ [];
  off = 15;
  buf = frame last_word ++ [];
  buf_cap = 4096;
  stat_batches = 0;
  stat_records = 0;
  stat_peak_batch = 0;
  stat_peak_staged = 0;
  pend = [];
  pend_cap = 0;
  repoint = [];
  repoint_cap = 0;
  schema = none;
  schema_written = false;
}

-- An empty log whose schema is set and not written.
abbrev fresh : Wal
fresh = record running { file = []; off = 0; buf = []; buf_cap = 0; schema = some (5 ∷ 1 ∷ []) }

abbrev row : Wbuf
row = record { bytes = greeting; cap = 256; oom = false }

-- A short write, an interrupted one, and the rest.
abbrev answers : List Answer
answers = wrote 5 ∷ interrupted ∷ wrote 100 ∷ []

running_room : 15 ≤ length (frame greeting ++ 0 ∷ 0 ∷ [])
running_room = omega (arith, length-append (frame greeting) (0 ∷ 0 ∷ []), length-frame greeting)

wal_commit-Barrier_example :
    Barrier running (wal_commit answers true running).0 (wal_commit answers true running).1
wal_commit-Barrier_example = wal_commit-Barrier running answers true running_room

running-IsLogged : IsLogged running (greeting ∷ [])
unfolding frame le_bytes
running-IsLogged = record {
  payloads = (greeting-IsPayload, tt);
  end = refl;
  in_file = refl;
  long_enough = running_room;
}

wal_commit-IsLogged_example :
    let (o, w') = wal_commit answers true running in
    IsLogged w' (owed o (greeting ∷ []) (last_word ∷ []))
    × IsSynced true running o
    × ((more : List (List ℕ)) × (log_records plenty w'.file
          ≡ owed o (greeting ∷ []) (last_word ∷ []) ++ more))
wal_commit-IsLogged_example =
    wal_commit-IsLogged plenty (λ n. refl) running (greeting ∷ []) (last_word ∷ []) answers true
      running-IsLogged (last_word-IsPayload, tt) refl

fresh_good : (stage plenty fresh row).0 ≡ true
unfolding stage stage_schema_head head_for stage_head stage_frame framed wput_u32 wput grown
    double_until le_bytes
fresh_good = refl

fresh_offset : (wal_next_offset plenty fresh).0 ≡ some 14
unfolding wal_next_offset stage_schema_head head_for stage_head stage_frame framed wput_u32 wput
    grown double_until le_bytes
fresh_offset = refl

next_good : (stage plenty (wal_next_offset plenty fresh).1 row).0 ≡ true
unfolding wal_next_offset stage stage_schema_head head_for stage_head stage_frame framed wput_u32
    wput grown double_until le_bytes
next_good = refl

next_offset-stage_example :
    let w' = (stage plenty (wal_next_offset plenty fresh).1 row).1 in
    (drop (14 - 0) w'.buf ≡ frame greeting) × (w'.off ≡ 0) × (0 + length {A = ℕ} [] ≤ 14)
next_offset-stage_example = next_offset-stage plenty fresh row 14 fresh_offset next_good

-- The log behind the barrier.
abbrev synced_log : Wal
synced_log = record running {
  file = frame greeting ++ frame last_word;
  off = 30;
  buf = [];
  stat_batches = 1;
  stat_records = 1;
  stat_peak_batch = 1;
  stat_peak_staged = 15;
}

synced_run : wal_commit_fatal answers true running 1 ≡ some synced_log
unfolding wal_commit_fatal count_batch wal_commit write_loop after_write overwrite frame le_bytes
synced_run = refl

wal_commit_fatal-Acknowledged_example : Acknowledged true running synced_log 1
wal_commit_fatal-Acknowledged_example =
    wal_commit_fatal-Acknowledged running synced_log answers true 1 running_room synced_run
