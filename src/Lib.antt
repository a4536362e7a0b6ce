-- ===== src/Lib.antt =====
-- The durable store of writeonce: the write-ahead log of its embedded database and the tables that a
-- log is replayed into, modelled from the C code under database/src, and the containers and the base64
-- of its runtime.
--
-- A running program keeps its rows in tables (database/src/table.c) and makes every change durable
-- by a record in one log file (database/src/wal.c). A change is applied to the table, encoded and
-- staged in the memory of the log, and one commit writes the staged batch and syncs it; only then
-- is it acknowledged. A restart reads the intact records from the start of the file and applies
-- them again. The runtime (runtime/src) calls this through database/src/db.c.
--
-- What models what:
-- - Wire: the byte buffers of database/src/wal.c, `wbuf` with `wput` and `wput_u8` to `wput_u64`,
--   and `rbuf` with `rtake` and `rd_u8` to `rd_u64`. Wire.Integers, Wire.Appending and
--   Wire.Reading hold their lemmas.
-- - Crc: `crc32_init` and `crc32`. Crc.Reference compares the table with the bitwise definition,
--   Crc.Detection is about changed bytes.
-- - Engine: the values of database/src/table.h and their codec, `enc_val` and `dec_val`.
--   Engine.Encoding describes the layout of a value, Engine.Fits the values that a class table
--   allows, Engine.RoundTrip and Engine.Decoding read well-formed and arbitrary bytes.
--   Engine.Sound holds the rules for decoders, Engine.Parts the parts of the round trip.
-- - Log: `scan_record`, and the loops of `wo_wal_open` (`open_offset`), `wo_wal_check`
--   (`wal_check`) and `wo_wal_replay_ex` (`log_records`). Log.Frame, Log.Scan, Log.Prefix,
--   Log.Torn and Log.Corrupt are about written records, accepted records, whole logs, cut records
--   and damaged ones.
-- - Wal: the struct `wo_wal` and the functions on it: `stage`, `stage_schema_head`,
--   `wo_wal_next_offset`, `wo_wal_append_insert` to `wo_wal_append_remove`, `wo_wal_commit`,
--   `wo_wal_commit_fatal`, `wo_wal_pend_drop`, `wo_wal_pend_repoint`, `wo_wal_repoint_offset1`. A
--   definition keeps the name without `wo_`. Wal.Staging, Wal.Commit and Wal.Recovery are about
--   the batch, the barrier and a restart, Wal.Fatal about the barrier that counts, Wal.Repoint
--   about the pending re-points; Wal.Positions about writes at a position.
-- - Fold: `scan_record_staged` and `wo_wal_fold_row_at`, which reads one row back along its
--   deltas. Fold.Staged compares the staged record with the committed one, Fold.Appended describes
--   what the append functions stage, Fold.History is about the chains of such records, Fold.Ends
--   about any bytes.
-- - Schema: `wo_schema_encode` and `wo_schema_decode`, with their round trip in Schema.RoundTrip;
--   Schema.Canonical is about any accepted bytes, by the rules of Schema.Gives.
-- - Policy: `wo_wal_should_compact`.
-- - Probing: open addressing with linear probing, which two parts of the store use: buckets, walks
--   and the loop that moves buckets to larger arrays. Probing.Walks is about the ends of walks,
--   Probing.Room about walks that end, Probing.Placed about where keys stand, Probing.Entries
--   about the buckets as a finite map, Probing.Rehash and Probing.Store about growth and insertion.
-- - IdHash: the id hash of a table in database/src/table.c, `hmix`, `hgrow`, `hput`, `hget`, `hdel`
--   `wo_row_set_offset` (`set_offset`, `row_set_offset`) and `wo_row_offset1`. IdHash.Sound, IdHash.Writes and
--   IdHash.Reads are about growth, insertion, and the rest.
-- - Slots: the slabs of a table, their bitmap and the list of free slots: `slot_row`, `slot_alloc`.
--   Slots.Sound has the invariant and the allocation, Slots.Use what a write, a mark and a freed slot
--   keep.
-- - Rows: the rows of a table over its slots and its id hash: `wo_row_ptr`, `wo_row_create_raw`,
--   `wo_row_raw_commit`, `wo_row_insert_slots`, `wo_row_remove` and `wo_row_drop_payload`. The record
--   `Indexing` is what they use of the secondary indexes. Rows.Sound has the invariant and the table
--   as a finite map, Rows.Lookup the rows that come and go and the lookup; Rows.Insert, Rows.Append
--   and Rows.Remove are about the operations.
-- - Indexes: the secondary indexes, `idx_bucket`, `idx_cols_equal`, `idx_add_row`,
--   `idx_remove_row`, and in Indexes.Probed `wo_idx_probe`, with Indexes.Probed.Match and Indexes.Probed.Found about it. Indexes.Sound, Indexes.Made and Indexes.Growth are about the buckets, Indexes.Listed about the
--   ids of one, Indexes.Single about one index, Indexes.Unique, Indexes.Whole and Indexes.Undo about
--   all of a table; Indexes.Interface fills `Indexing`.
-- - Replay: `apply_record`, `apply_delta` and the loop of `wo_wal_replay_ex` (`wal_replay`) over the
--   tables. Replay.Created and Replay.Applied are about the steps of a record, Replay.Kinds about one
--   record, Replay.Whole about a log.
-- - Hashing: `idx_float_key`, `idx_hash` and `idx_hash_key1` of database/src/table.c.
-- - Offsets: `migmap_put` and `migmap_get` of database/src/wal.c. Offsets.Lookup is about both.
-- - Migration: `wo_schema_diff` of database/src/wal.c: the judgement of one class in Migration, the
--   loop over embedding classes in Migration.Closure, the whole in Migration.Diff. Migration.Maps,
--   Migration.Renames and Migration.Verdicts are about one class, Migration.Ends and Migration.Plans about the loop
--   and the plan, Migration.Same and Migration.Kept about a schema against itself.
-- - Base64: `WO_B_BASE64_ENCODE` and `wo_base64_to_bytes` of runtime/src/builtin.c, `jb_b64` of
--   runtime/src/json.c. Base64.Digits is about the alphabet, Base64.Lengths about lengths and
--   padding, Base64.RoundTrip and Base64.Fields about texts that are read back.
-- - Containers: the operations of runtime/src/cont.c on `multi` and `map`. Containers.Keys and
--   Containers.Lookup are about a map, Containers.Push about a multi.
-- - Common: lists, Booleans and the bit operations over the native numbers.
-- - Tests: concrete runs.
--
-- State and environment: a file is the list of its bytes. The allocator is a parameter (`Memory`,
-- an answer for each size, the same each time), so that every branch for a failed malloc or
-- realloc is in the model, and a theorem that needs memory says so. The answers of pwrite are a
-- list, that of fdatasync a Boolean; a list that ends early is a crash within the call. The model
-- has the bytes of the file and not what survives a loss of power; a commit that reports success has
-- had a successful fdatasync behind its writes, unless nothing was staged, and one whose fdatasync
-- failed leaves its bytes in the file behind an offset that has not moved.
--
-- Integers: widths are kept where the code stores or reads them (`le_bytes`, `le_value`), and where a
-- count, an id, a slot number or a capacity of a bucket is computed, the wrap is written out
-- (`% 2 ^ 32`, `% 2 ^ 64`). Offsets in the file and the capacities of the hash arrays are natural
-- numbers. Where a theorem needs that a 32-bit number does not wrap, it assumes an allocator that
-- grants less than 2^29 bytes at once (`IsCapped` in Wire): the bitmap of 2^32 slots and the ids of
-- a bucket of 2^26 would pass that.
--
-- Fuel: the loops over a log take one unit for each byte of the file, and a record has 13 bytes at
-- least; `double_until` takes one for each byte asked for, and every round doubles a capacity
-- above zero; `dec_val` takes one for each level of nesting, and each level takes a byte at least;
-- the fold takes one for each offset below its start, since every hop goes to a smaller one. In
-- every case the theorems show that this is enough. A walk over buckets takes one for each bucket,
-- and the invariant keeps one bucket empty. The closure loop of the schema diff takes one for each
-- class and one more, since each round but the last refuses a class.
--
-- Rows: a table is modelled with its rows resident. `wo_row_remove` has the branch for a row in the log
-- too, and `wo_row_drop_payload` moves a row there; the read of such a row is a parameter. A table is
-- taken as it is after its lazy initialisation. The frees of values do not show in the model. A row of
-- an index whose column is a pointer other than a text is hashed by its address, which is a parameter.
--
-- Not modelled: `wo_row_insert` with its encoding of VM values, the updates of fields in place,
-- the rows of keys-resident tables in a replay, the rewriting of a log in a migration,
-- and compaction; the compiler, the rest of the runtime, cryptography, TLS and system I/O. The calls of
-- the kernel are parameters.
pub mod Common
pub mod Wire
pub mod Crc
pub mod Engine
pub mod Log
pub mod Wal
pub mod Base64
pub mod Containers
pub mod Fold
pub mod Hashing
pub mod IdHash
pub mod Indexes
pub mod Migration
pub mod Offsets
pub mod Policy
pub mod Probing
pub mod Replay
pub mod Rows
pub mod Schema
pub mod Slots
pub mod Tests
