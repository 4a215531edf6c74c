-- ===== src/Schema/Shard.antt =====
-- schema/src/shard.rs
use sekv.Prelude.{Bool, false, ◌&&◌, ◌||◌, none, some, []}
use sekv.Prelude.Bytes.{Bytes, is_empty, lt_bytes, le_bytes}
use sekv.Api.{ShardDesc}

unfoldable pub in_range : Bytes → Bytes → Bytes → Bool
in_range start end user_key = le_bytes start user_key && (lt_bytes user_key end || is_empty end)

unfoldable pub belong_to : ShardDesc → Bytes → Bool
unfolding in_range
belong_to shard user_key = elim shard.range [
  | none ↦ false
  | some range ↦ in_range range.start range.end user_key
]

unfoldable pub start_key : ShardDesc → Bytes
start_key shard = elim shard.range [ none ↦ [] | some range ↦ range.start ]

unfoldable pub end_key : ShardDesc → Bytes
end_key shard = elim shard.range [ none ↦ [] | some range ↦ range.end ]
