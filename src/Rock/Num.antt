-- ===== src/Rock/Num.antt =====
-- rock/src/num.rs: `decode_u64` and `decode_i64`. An `i64` is its bit pattern.
use sekv.Prelude.{ℕ, ◌+◌, ◌%◌, ◌<◌, ◌≡◌, Option, none, some, ◌==◌, if◌then◌else◌, length, arith}
use sekv.Prelude.Bytes.{
  Bytes, words, to_be_bytes, from_be_bytes, length-to_be_bytes, from_be_bytes-to_be_bytes,
}

-- `from_be_bytes` of a word of eight bytes
unfoldable pub decode_u64 : Bytes → Option ℕ
unfolding from_be_bytes
decode_u64 bytes = if length bytes == 8 then some (from_be_bytes bytes) else none

abbrev pub decode_i64 : Bytes → Option ℕ
decode_i64 = decode_u64

-- 2^64
abbrev pub u64_mod : ℕ
u64_mod = words 8

-- `wrapping_add` of two bit patterns
abbrev pub wrapping_add : ℕ → ℕ → ℕ
wrapping_add a b = (a + b) % u64_mod

pub decode_u64-to_be_bytes : (n : ℕ) → n < u64_mod → decode_u64 (to_be_bytes 8 n) ≡ some n
unfolding decode_u64
decode_u64-to_be_bytes n h = ground (arith, length-to_be_bytes 8 n, from_be_bytes-to_be_bytes 8 n h)
