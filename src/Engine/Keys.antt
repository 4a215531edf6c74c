-- ===== src/Engine/Keys.antt =====
-- `mod keys` of server/src/engine/group.rs: the mvcc key, in the memcomparable format.
pub mod Order
pub mod RoundTrip
use sekv.Prelude.{
  ℕ, zero, suc, ◌+◌, ◌-◌, ◌%◌, Bool, true, false, ◌&&◌, not, List, [], ◌∷◌, ◌++◌, Option, none,
  some, ltb, leb, ◌==◌, if◌then◌else◌, length, take, drop,
}
use sekv.Prelude.Bytes.{Bytes, is_empty, words, to_be_bytes, to_le_bytes}
use sekv.Result.{Result, ok, err, panicked, ◌>>=◌}

-- u64::MAX
abbrev pub u64_max : ℕ
u64_max = 18_446_744_073_709_551_615

-- `[0u8; n]` after `Cursor::read` wrote over it what the cursor holds
unfoldable pub pad : ℕ → Bytes → Bytes
pad zero key = []
pad (suc n) [] = 0 ∷ pad n []
pad (suc n) (b ∷ key) = b ∷ pad n key

-- the size byte of the group that `key` begins with: 9 says that another group follows
unfoldable pub group_size : Bytes → ℕ
group_size key =
    let size = length (take 8 key) in
    if size == 8 && not (is_empty (drop 8 key)) then size + 1 else size

-- the `while !cursor.is_empty()` of `mvcc_key`; every round takes a byte at least
unfoldable pub encode_groups : ℕ → Bytes → Bytes
unfolding pad group_size
encode_groups fuel [] = []
encode_groups zero (b ∷ key) = []
encode_groups (suc fuel) (b ∷ key) =
    pad 8 (b ∷ key) ++ (b'0' + group_size (b ∷ key)) ∷ encode_groups fuel (drop 8 (b ∷ key))

unfoldable pub mvcc_key : ℕ → Bytes → ℕ → Bytes
mvcc_key table_id key version =
    to_le_bytes 8 table_id ++ (encode_groups (length key) key ++ to_be_bytes 8 (u64_max - version))

unfoldable pub raw : ℕ → Bytes → Bytes
raw table_id key = if is_empty key then to_le_bytes 8 table_id else mvcc_key table_id key u64_max

-- `(group[8] - b'0') as usize` of a byte wraps round
abbrev num_element : ℕ → ℕ
num_element size = let n = (size + 256 - b'0') % 256 in if leb n 8 then n else 8

abbrev first_or_zero : Bytes → ℕ
first_or_zero [] = 0
first_or_zero (b ∷ bs) = b

-- the byte `group[8]` of an array of nine
abbrev ninth : Bytes → ℕ
ninth group = first_or_zero (drop 8 group)

-- the `while !cursor.is_empty()` of `revert_mvcc_key`
unfoldable pub decode_groups : ℕ → Bytes → Bytes
unfolding pad
decode_groups fuel [] = []
decode_groups zero (b ∷ encoded) = []
decode_groups (suc fuel) (b ∷ encoded) =
    let group = pad 9 (b ∷ encoded) in
    take (num_element (ninth group)) group ++ decode_groups fuel (drop 9 (b ∷ encoded))

-- `key[L..(len - L)]` is out of range for less than 16 bytes
unfoldable pub revert_mvcc_key : Bytes → Result Bytes
unfolding decode_groups
revert_mvcc_key key =
    let len = length key in
    if ltb len 16
    then err panicked
    else (let encoded = drop 8 (take (len - 8) key) in ok (decode_groups (length encoded) encoded))

unfoldable pub may_revert_mvcc_key : Bytes → Result (Option Bytes)
unfolding revert_mvcc_key
may_revert_mvcc_key key =
    if leb (length key) 16 then ok none else do user_key ← revert_mvcc_key key; ok (some user_key)
