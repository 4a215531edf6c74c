-- ===== src/Schema.antt =====
-- The schema crate: shards as ranges of user keys, and the keys of the system tables.
pub mod Shard
pub mod TxnKeys
