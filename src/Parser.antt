-- ===== src/Parser.antt =====
-- The parser crate: the statements of the command line.
pub mod Utf8
pub mod Token
pub mod Rules
pub mod Statement
pub mod Print
pub mod Yields
pub mod RoundTrip
pub mod Ends
pub mod Fuel
