-- ===== src/Rock.antt =====
-- The rock crate: extensions of the standard library.
pub mod Num
pub mod Lexical
