-- ===== src/Replica.antt =====
-- The replica of a group: the state machine of server/src/replica/fsm that raft drives.
pub mod Config
pub mod Shards
pub mod Fsm
