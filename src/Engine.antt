-- ===== src/Engine.antt =====
-- server/src/engine/group.rs: the data of a group in one column family of rocksdb.
pub mod Keys
pub mod Entry
pub mod Snapshot
pub mod Rows
pub mod Group
