-- ===== src/Replica/Shards.antt =====
-- The changes of a group's shards: `apply_split_shard`, `apply_merge_shard` and `apply_moving_shard` of
-- server/src/replica/fsm/mod.rs.
pub mod Ranges
pub mod Owners
pub mod Changes
use sekv.Prelude.{
  ℕ, ◌==◌, not, ltb, if◌then◌else◌, Bool, true, false, Option, none, some, List, [], ◌∷◌, ◌++◌,
}
use sekv.Prelude.Bytes.{Bytes, eq_bytes}
use sekv.Api.{ShardDesc, RangePartition, MoveShardDesc}
use sekv.Api.Group.{GroupDesc, find_shard, drop_shard, with_range, apply_shard_delta}
use sekv.Schema.Shard.{belong_to}
use sekv.Result.{Result, ok, err, ◌>>=◌, ◌>>◌, ok_or, invalid_data, panicked}

pub record SplitShard : Type 0 where
  pub old_shard_id : ℕ
  pub new_shard_id : ℕ
  pub split_key : Bytes

pub record MergeShard : Type 0 where
  pub left_shard_id : ℕ
  pub right_shard_id : ℕ

abbrev pub guard : Bool → Result (Unit {0})
guard true = ok tt
guard false = err invalid_data

-- The range of the shard that `shard_mut` finds is replaced.
unfoldable pub set_range : ℕ → RangePartition → List ShardDesc → List ShardDesc
set_range shard_id range [] = []
set_range shard_id range (shard ∷ shards) =
    if shard.id == shard_id
    then record shard { range = some range } ∷ shards
    else shard ∷ set_range shard_id range shards

abbrev pub split_shards : SplitShard → ShardDesc → RangePartition → List ShardDesc → List ShardDesc
split_shards split old range shards =
    set_range split.old_shard_id (record { start = range.start; end = split.split_key }) shards
    ++ (with_range split.new_shard_id old.table_id split.split_key range.end ∷ [])

unfoldable pub apply_split_shard : SplitShard → GroupDesc → Result GroupDesc
unfolding set_range find_shard with_range apply_shard_delta
apply_split_shard split group_desc = do
  old_shard ← ok_or (find_shard split.old_shard_id group_desc.shards) invalid_data
  range ← ok_or old_shard.range invalid_data
  guard (belong_to old_shard split.split_key)
  ok (record group_desc {
    shards = split_shards split old_shard range group_desc.shards;
    epoch = apply_shard_delta group_desc.epoch;
  })

abbrev pub merged_shards :
    MergeShard → ShardDesc → RangePartition → RangePartition → List ShardDesc → List ShardDesc
merged_shards merge left left_range right_range shards =
    drop_shard merge.right_shard_id (drop_shard merge.left_shard_id shards)
    ++ (with_range left.id left.table_id left_range.start right_range.end ∷ [])

unfoldable pub apply_merge_shard : MergeShard → GroupDesc → Result GroupDesc
unfolding find_shard drop_shard with_range apply_shard_delta
apply_merge_shard merge group_desc = do
  left_shard ← ok_or (find_shard merge.left_shard_id group_desc.shards) invalid_data
  right_shard ← ok_or (find_shard merge.right_shard_id group_desc.shards) invalid_data
  guard (left_shard.table_id == right_shard.table_id)
  left_range ← ok_or left_shard.range invalid_data
  right_range ← ok_or right_shard.range invalid_data
  guard (eq_bytes left_range.end right_range.start)
  ok (record group_desc {
    shards = merged_shards merge left_shard left_range right_range group_desc.shards;
    epoch = apply_shard_delta group_desc.epoch;
  })

abbrev pub max : ℕ → ℕ → ℕ
max a b = if ltb a b then b else a

abbrev pub moved : ℕ → ShardDesc → GroupDesc → Bool → GroupDesc × Option ShardDesc
moved epoch shard group_desc true = (
  record group_desc { epoch = epoch; shards = drop_shard shard.id group_desc.shards },
  some shard,
)
moved epoch shard group_desc false =
    (record group_desc { epoch = epoch; shards = group_desc.shards ++ (shard ∷ []) }, none)

-- `apply_moving_shard`: the group that a shard leaves drops it and tells which; another one takes it.
unfoldable pub apply_moving_shard :
    MoveShardDesc → GroupDesc → Result (GroupDesc × Option ShardDesc)
unfolding drop_shard apply_shard_delta
apply_moving_shard desc group_desc = do
  shard_desc ← ok_or desc.shard_desc panicked
  let inherited_epoch = max group_desc.epoch (max desc.src_group_epoch desc.dest_group_epoch)
  let epoch = apply_shard_delta inherited_epoch
  ok (moved epoch shard_desc group_desc (desc.src_group_id == group_desc.id))
