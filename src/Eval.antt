-- ===== src/Eval.antt =====
-- server/src/replica/eval: the commands of a group's leader, and the latches that order them.
pub mod Cas
pub mod Forward
pub mod Get
pub mod Txn
pub mod Write
pub mod Scan
pub mod Latch
