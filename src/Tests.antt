-- ===== src/Tests.antt =====
-- The models on concrete inputs: published check values of the checksum and runs of the operations of
-- database/src/wal.c and database/src/table.c.
pub mod Records
pub mod Rows
pub mod Replays
pub mod Commits
pub mod Folds
pub mod Appends
pub mod Base64s
pub mod Containers
pub mod Hashes
pub mod Ids
pub mod Migrations
pub mod Offsets
