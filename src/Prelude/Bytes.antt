-- ===== src/Prelude/Bytes.antt =====
-- Byte strings (`[u8]`, `Vec<u8>`) as lists of numbers: the lexicographic order of slices, and the
-- fixed width big endian and little endian encodings of the standard library.
mod Order
mod Endian
unfoldable pub use Order.*
unfoldable pub use Endian.*
