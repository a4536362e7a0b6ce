-- ===== src/Tests/Folds.antt =====
-- Rows read back out of a concrete log (`wo_wal_fold_row_at` of database/src/wal.c).
use writeonce.Common.{
  ℕ, ◌≤◌, ◌≡◌, refl, ◌∙◌, ap, some, true, List, [], ◌∷◌, ◌++◌, length, take, length-append,
  take-length_append, drop-length_append, All, inl, arith,
}
use writeonce.Wire.{le_bytes, le_value}
use writeonce.Wire.Integers.{IsByte}
use writeonce.Crc.{crc32}
use writeonce.Engine.{
  scalar, text, word, db_text, Values, done, slot, ClassDesc, kinds_at, kind_byte,
}
use writeonce.Engine.Encoding.{encoding, slots_encoding}
use writeonce.Engine.Fits.{FitSlots, fits_scalar, fits_text, slots_more, slots_done}
use writeonce.Log.{frame, scan_record, field_at}
use writeonce.Log.Frame.{IsPayload, length-frame, scan_record-frame}
use writeonce.Wal.{Wal, wal_insert, Answer, wrote, written, wal_commit, write_loop, after_write}
use writeonce.Fold.{staged_payload, row, record_at, scan_record_staged, wal_fold_row_at}
use writeonce.Fold.Staged.{committed, scan_record_staged-committed, scan_record_staged-wal_commit}
use writeonce.Fold.Ends.{FoldSound, wal_fold_row_at-FoldSound}
use writeonce.Fold.History.{
  History, logged_row, changed_field, row_payload, delta_payload, wal_fold_row_at-History,
}
use writeonce.Tests.Records.{plenty, greeting, are_bytes-IsByte}
use writeonce.Tests.Commits.{running}

-- A class of one word and one text.
abbrev pub accounts : List ClassDesc
accounts = record { flags = 0; kinds = scalar ∷ text ∷ [] } ∷ []

abbrev pub opened : Values
opened = slot (word 5) (slot (db_text greeting) done)

abbrev row_record : List ℕ
row_record = row_payload accounts wal_insert 0 7 opened

-- The word is now 99.
abbrev delta_record : List ℕ
delta_record = delta_payload accounts 0 7 0 0 (word 99)

row_record-IsPayload : IsPayload row_record
unfolding le_bytes encoding slots_encoding kind_byte
row_record-IsPayload = record {
  bytes = are_bytes-IsByte row_record refl;
  some_byte = omega arith;
  small = omega arith;
}

delta_record-IsPayload : IsPayload delta_record
unfolding le_bytes encoding slots_encoding kind_byte
delta_record-IsPayload = record {
  bytes = are_bytes-IsByte delta_record refl;
  some_byte = omega arith;
  small = omega arith;
}

-- The row is on disk and the delta staged.
abbrev banking : Wal
banking = record running {
  file = frame row_record ++ 0 ∷ 0 ∷ [];
  off = 40;
  buf = frame delta_record ++ [];
}

row_size : length (frame row_record) ≡ 40
unfolding le_bytes encoding slots_encoding kind_byte
row_size = length-frame row_record

banking_room : 40 ≤ length (frame row_record ++ 0 ∷ 0 ∷ [])
banking_room = omega (arith, length-append (frame row_record) (0 ∷ 0 ∷ []), row_size)

row_stored : record_at plenty banking 0 ≡ some row_record
unfolding record_at
row_stored =
    scan_record-frame plenty (λ n. refl) banking.file row_record (0 ∷ 0 ∷ []) 0 row_record-IsPayload
      refl

delta_stored : record_at plenty banking 40 ≡ some delta_record
unfolding record_at frame le_bytes encoding kind_byte
delta_stored =
    scan_record_staged-committed plenty banking 40 banking_room (omega arith)
    ∙ scan_record-frame plenty (λ n. refl) (committed banking) delta_record [] 40
        delta_record-IsPayload
        (drop-length_append 40 (take 40 banking.file) banking.buf (
          ap (λ (t : List ℕ). length t)
            (take-length_append 40 (frame row_record) (0 ∷ 0 ∷ []) row_size)
          ∙ row_size))

opened-FitSlots : FitSlots accounts (kinds_at accounts 0) opened
opened-FitSlots =
    slots_more (fits_scalar (omega arith)) (slots_more (fits_text (omega arith)) slots_done)

banking-History :
    History accounts plenty banking 0 7 40 (slot (word 99) (slot (db_text greeting) done)) 1
banking-History =
    changed_field (logged_row (inl refl) opened-FitSlots row_stored) (omega arith) (omega arith)
      (omega arith) (omega arith) (fits_scalar (omega arith)) delta_stored

wal_fold_row_at-History_example :
    wal_fold_row_at plenty banking accounts 40
    ≡ row 0 7 (slot (word 99) (slot (db_text greeting) done)) 1
wal_fold_row_at-History_example =
    wal_fold_row_at-History plenty (λ n. refl) accounts banking 0 7 40 1
      (slot (word 99) (slot (db_text greeting) done)) (omega arith) (omega arith) (omega arith)
      banking-History

banking_file-IsByte : All IsByte banking.file
unfolding frame le_bytes encoding slots_encoding kind_byte crc32
banking_file-IsByte = are_bytes-IsByte banking.file refl

banking_buf-IsByte : All IsByte banking.buf
unfolding frame le_bytes encoding slots_encoding kind_byte crc32
banking_buf-IsByte = are_bytes-IsByte banking.buf refl

wal_fold_row_at-FoldSound_example : FoldSound accounts (wal_fold_row_at plenty banking accounts 40)
wal_fold_row_at-FoldSound_example =
    wal_fold_row_at-FoldSound accounts plenty banking 40 banking_file-IsByte banking_buf-IsByte

staged_delta : scan_record_staged plenty banking 40 ≡ some delta_record
unfolding scan_record_staged staged_payload field_at frame le_bytes encoding kind_byte crc32
    le_value
staged_delta = refl

abbrev at_once : List Answer
at_once = wrote 100 ∷ []

banking_written : (wal_commit at_once true banking).0 ≡ written
unfolding wal_commit write_loop after_write frame le_bytes encoding kind_byte crc32
banking_written = refl

scan_record_staged-wal_commit_example :
    scan_record plenty (wal_commit at_once true banking).1.file 40 ≡ some delta_record
scan_record_staged-wal_commit_example =
    scan_record_staged-wal_commit plenty banking 40 delta_record at_once true banking_room
      (omega arith) staged_delta banking_written
