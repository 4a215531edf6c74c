-- ===== src/Engine/Group.antt =====
-- `GroupEngine` of server/src/engine/group.rs: point reads, snapshots and write batches. `seek` stands
-- for rocksdb's `iterator_cf_opt(IteratorMode::From(key, Forward))` over the group's column family.

pub mod Reads
use sekv.Prelude.{ℕ, zero, suc, Option, none, some, List, [], ◌∷◌, ◌++◌, length}
use sekv.Prelude.Bytes.{Bytes}
use sekv.Api.{Value, ValueSet, ShardDesc}
use sekv.Schema.Shard.{start_key}
use sekv.Result.{Result, ok, err, shard_not_found, ◌>>=◌, ok_or}
use sekv.Engine.Keys.{mvcc_key, raw}
use sekv.Engine.Entry.{MvccEntry, data_value, tombstone_value, to_value}
use sekv.Engine.Snapshot.{
  Item, SnapshotMode, from_start, of_key, of_prefix, Snapshot, new_snapshot, next_mvcc_iterator,
  next_mvcc_entry,
}

pub record GroupEngine : Type 0 where
  pub shard_descs : ℕ → Option ShardDesc
  pub seek : Bytes → List Item

unfoldable pub shard_desc : GroupEngine → ℕ → Result ShardDesc
shard_desc engine shard_id = ok_or (engine.shard_descs shard_id) (shard_not_found shard_id)

-- the key that a snapshot's iterator starts at
unfoldable pub seek_key : ShardDesc → SnapshotMode → Bytes
unfolding start_key
seek_key desc (from_start none) = raw desc.table_id (start_key desc)
seek_key desc (from_start (some key)) = raw desc.table_id key
seek_key desc (of_key key) = raw desc.table_id key
seek_key desc (of_prefix key) = raw desc.table_id key

unfoldable pub snapshot : GroupEngine → ℕ → SnapshotMode → Result Snapshot
unfolding shard_desc seek_key new_snapshot
snapshot engine shard_id mode = do
  desc ← shard_desc engine shard_id
  ok (new_snapshot desc.table_id (engine.seek (seek_key desc mode)) mode desc)

abbrev pub first_value : Option (Result MvccEntry) → Result (Option Value)
first_value none = ok none
first_value (some e) = do entry ← e; value ← to_value entry; ok (some value)

-- The latest version of a key, a transaction's intent and a tombstone included.
unfoldable pub get : GroupEngine → ℕ → Bytes → Result (Option Value)
get engine shard_id key = do
  s ← snapshot engine shard_id (of_key key)
  let (r, s') = next_mvcc_iterator s
  elim r [
    | none ↦ ok none
    | some (err e) ↦ err e
    | some (ok u) ↦ first_value (next_mvcc_entry s').0
  ]

-- `for entry in iter? { value_set.values.push(entry?.into()) }`: a round consumes the cached entry
-- or an item of the iterator.
unfoldable pub push_values : ℕ → Snapshot → List Value → Result (List Value)
push_values zero s values = ok values
push_values (suc fuel) s values =
    let (r, s') = next_mvcc_entry s in
    elim r [
      | none ↦ ok values
      | some (err e) ↦ err e
      | some (ok entry) ↦ elim (to_value entry) [
        | err e ↦ err e
        | ok value ↦ push_values fuel s' (values ++ value ∷ [])
      ]
    ]

unfoldable pub get_all_versions : GroupEngine → ℕ → Bytes → Result ValueSet
get_all_versions engine shard_id key = do
  s ← snapshot engine shard_id (of_key key)
  let (r, s') = next_mvcc_iterator s
  elim r [
    | none ↦ ok (record { user_key = key; values = [] })
    | some (err e) ↦ err e
    | some (ok u) ↦ do
      values ← push_values (suc (suc (length s'.core.db_iter))) s' []
      ok (record { user_key = key; values = values })
  ]

-- One record of a `rocksdb::WriteBatch`.
pub data BatchOp : Type 0 where
  put_op : Bytes → Bytes → BatchOp
  delete_op : Bytes → BatchOp

abbrev pub WriteBatch : Type 0
WriteBatch = List BatchOp

module _ (engine : GroupEngine) (wb : WriteBatch) (shard_id : ℕ) (key : Bytes) where
  unfoldable pub put : Bytes → ℕ → Result WriteBatch
  unfolding shard_desc
  put value version = do
    desc ← shard_desc engine shard_id
    ok (wb ++ put_op (mvcc_key desc.table_id key version) (data_value value) ∷ [])

  unfoldable pub tombstone : ℕ → Result WriteBatch
  unfolding shard_desc
  tombstone version = do
    desc ← shard_desc engine shard_id
    ok (wb ++ put_op (mvcc_key desc.table_id key version) tombstone_value ∷ [])

  unfoldable pub delete : ℕ → Result WriteBatch
  unfolding shard_desc
  delete version = do
    desc ← shard_desc engine shard_id
    ok (wb ++ delete_op (mvcc_key desc.table_id key version) ∷ [])
