-- ===== src/Client.antt =====
-- The client crate.
pub mod Range
pub mod Error
pub mod Retry
pub mod Builder
pub mod TxnTable
pub mod Batch
pub mod Router
