-- ===== src/Tests/Appends.antt =====
-- Appended records, pending re-points, a damaged record and a schema record, on concrete data
-- (database/src/wal.c).
use writeonce.Common.{
  length, ◌<◌, ◌^◌, ℕ, ◌≡◌, refl, true, ◌&&◌, some, none, List, [], ◌∷◌, ◌++◌, All, ◌==◌,
  if◌then◌else◌, arith,
}
use writeonce.Wire.{wput, wput_u8, wput_u32, wput_u64, grown, double_until, le_bytes}
use writeonce.Wire.Integers.{IsByte}
use writeonce.Crc.{crc32}
use writeonce.Engine.{scalar, word, enc_val, enc_slots, kind_byte}
use writeonce.Log.{frame, mark, scan_record}
use writeonce.Log.Corrupt.{scan_record-corrupt}
use writeonce.Wal.{
  Pend, wal_insert, stage, stage_schema_head, head_for, stage_frame, framed, record_head,
  append_row, wal_append_insert, wal_append_delta, push_pend, wal_pend_repoint, wal_repoint_offset1,
}
use writeonce.Wal.Staging.{Staged, pending_head}
use writeonce.Wal.Repoint.{wal_repoint_offset1-pend}
use writeonce.Fold.History.{row_payload, delta_payload}
use writeonce.Fold.Appended.{wal_append_insert-Staged, wal_append_delta-Staged}
use writeonce.Schema.{Schema, put_name, put_fields, put_classes, schema_encode, schema_decode}
use writeonce.Schema.RoundTrip.{SchemaFits, schema_bytes, schema_decode-encode}
use writeonce.Schema.Canonical.{schema_encode-decode}
use writeonce.Tests.Records.{plenty, greeting, are_bytes-IsByte}
use writeonce.Tests.Commits.{running}
use writeonce.Tests.Folds.{accounts, opened}

insert_good : (wal_append_insert plenty accounts running 0 7 (some opened)).0 ≡ true
unfolding wal_append_insert append_row stage stage_schema_head head_for stage_frame framed
    record_head enc_slots enc_val wput_u8 wput_u32 wput_u64 wput grown double_until le_bytes
    kind_byte frame
insert_good = refl

wal_append_insert-Staged_example :
    Staged running
      (wal_append_insert plenty accounts running 0 7 (some opened)).1
      (pending_head running ++ frame (row_payload accounts wal_insert 0 7 opened))
wal_append_insert-Staged_example =
    wal_append_insert-Staged plenty running accounts 0 7 opened insert_good

delta_good : (wal_append_delta plenty accounts running 0 7 0 3 scalar (word 99)).0 ≡ true
unfolding wal_append_delta stage stage_schema_head head_for stage_frame framed record_head enc_slots
    enc_val wput_u8 wput_u32 wput_u64 wput grown double_until le_bytes kind_byte frame
delta_good = refl

wal_append_delta-Staged_example :
    Staged running
      (wal_append_delta plenty accounts running 0 7 0 3 scalar (word 99)).1
      (pending_head running ++ frame (delta_payload accounts 0 7 0 3 (word 99)))
wal_append_delta-Staged_example =
    wal_append_delta-Staged plenty running accounts 0 7 0 3 (word 99) delta_good

abbrev moved : Pend
moved = record { cid = 0; id = 7; off = 40 }

moved_good : (wal_pend_repoint plenty running moved).0 ≡ true
unfolding wal_pend_repoint push_pend
moved_good = refl

wal_repoint_offset1-pend_example :
    wal_repoint_offset1 (wal_pend_repoint plenty running moved).1 0 7
    ≡ (if 0 == 0 && 7 == 7 then 41 else wal_repoint_offset1 running 0 7)
wal_repoint_offset1-pend_example = wal_repoint_offset1-pend plenty running moved 0 7 moved_good

-- The record of "hi!" with "hj!" in its payload.
abbrev damaged : List ℕ
damaged =
    le_bytes 4 3
    ++ (le_bytes 4 (crc32 ((104 ∷ []) ++ 105 ∷ (33 ∷ [])))
        ++ (((104 ∷ []) ++ 106 ∷ (33 ∷ [])) ++ (le_bytes 4 mark ++ [])))

damaged-IsByte : All IsByte damaged
unfolding le_bytes crc32
damaged-IsByte = are_bytes-IsByte damaged refl

scan_record-corrupt_example : scan_record plenty damaged 0 ≡ none
scan_record-corrupt_example =
    scan_record-corrupt plenty damaged (104 ∷ []) (33 ∷ []) [] 105 106 0 damaged-IsByte
      (are_bytes-IsByte (104 ∷ []) refl) (are_bytes-IsByte (33 ∷ []) refl) (omega arith)
      (omega arith) (λ e. omega arith) (omega arith) refl

-- One class with one field.
abbrev bank : Schema
bank = record {
  classes =
      record {
        name = greeting;
        flags = 1;
        fields = record { name = 98 ∷ []; kind = 0; fclass = 0xFFFFFFFF; felem = 0xFFFFFFFF } ∷ [];
      }
      ∷ [];
}

bank-SchemaFits : SchemaFits bank
bank-SchemaFits = record {
  few_classes = omega arith;
  classes_fit = (
    record {
      name_width = omega arith;
      flags_width = omega arith;
      few_fields = omega arith;
      fields_fit = (
        record {
          name_width = omega arith;
          kind_width = omega arith;
          fclass_width = omega arith;
          felem_width = omega arith;
        },
        tt,
      );
    },
    tt,
  );
}

bank_small : length (schema_bytes bank) < 2 ^ 32
unfolding le_bytes
bank_small = omega arith

bank_encoded : schema_encode plenty bank ≡ some (schema_bytes bank)
unfolding schema_encode put_classes put_fields put_name wput_u8 wput_u32 wput grown double_until
    le_bytes
bank_encoded = refl

schema_decode-encode_example : schema_decode plenty (schema_bytes bank) ≡ some bank
schema_decode-encode_example =
    schema_decode-encode plenty (λ n. refl) bank (schema_bytes bank) bank-SchemaFits bank_small
      bank_encoded

bank_bytes-IsByte : All IsByte (schema_bytes bank)
unfolding le_bytes
bank_bytes-IsByte = are_bytes-IsByte (schema_bytes bank) refl

bank_decoded : schema_decode plenty (schema_bytes bank) ≡ some bank
bank_decoded =
    schema_decode-encode plenty (λ n. refl) bank (schema_bytes bank) bank-SchemaFits bank_small
      bank_encoded

schema_encode-decode_example : schema_bytes bank ≡ schema_bytes bank
schema_encode-decode_example =
    schema_encode-decode plenty plenty bank (schema_bytes bank) (schema_bytes bank)
      bank_bytes-IsByte bank_small bank_decoded bank_encoded
