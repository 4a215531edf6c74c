-- ===== src/Examples.antt =====
-- Runs of the modelled code on concrete rows, requests and keys.
mod Batch
mod Replica
mod Router
mod Store
mod Engine
mod Eval
mod Txn
mod Write
mod Scan
mod Latch
mod Range
mod AfterCommit
mod TxnTable
mod Parser
mod Resolve
