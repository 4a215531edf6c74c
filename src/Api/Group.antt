-- ===== src/Api/Group.antt =====
-- The descriptors of groups and replicas of api/sekas/server/v1/metadata.proto, the changes of replicas of
-- server.proto, and the methods of `GroupDesc`, `ShardDesc` and `Epoch` in api/src. A number that is none of an
-- enum's is left out.
use sekv.Prelude.{
  ℕ, ◌+◌, ◌/◌, ◌%◌, ◌^◌, ◌==◌, not, if◌then◌else◌, Option, none, some, List, [], ◌∷◌, Bool,
}
use sekv.Prelude.Bytes.{Bytes}
use sekv.Api.{ShardDesc}

pub data ReplicaRole : Type 0 where
  voter learner incoming_voter demoting_voter : ReplicaRole

pub record ReplicaDesc : Type 0 where
  pub id : ℕ
  pub node_id : ℕ
  pub role : ReplicaRole

pub record GroupDesc : Type 0 where
  pub id : ℕ
  pub epoch : ℕ
  pub shards : List ShardDesc
  pub replicas : List ReplicaDesc

pub data ChangeReplicaType : Type 0 where
  add remove add_learner : ChangeReplicaType

pub record ChangeReplica : Type 0 where
  pub change_type : ChangeReplicaType
  pub replica_id : ℕ
  pub node_id : ℕ

pub data RaftRole : Type 0 where
  follower candidate leader pre_candidate : RaftRole

pub record ReplicaState : Type 0 where
  pub replica_id : ℕ
  pub group_id : ℕ
  pub term : ℕ
  pub voted_for : ℕ
  pub role : RaftRole
  pub node_id : ℕ

-- `GroupDesc::shard`, the first shard with the id
unfoldable pub find_shard : ℕ → List ShardDesc → Option ShardDesc
find_shard shard_id [] = none
find_shard shard_id (shard ∷ shards) =
    if shard.id == shard_id then some shard else find_shard shard_id shards

-- `retain` by a test
abbrev pub retain {ℓ} : {A : Type ℓ} → (A → Bool) → List A → List A
retain keep [] = []
retain keep (x ∷ xs) = if keep x then x ∷ retain keep xs else retain keep xs

-- `GroupDesc::drop_shard`
unfoldable pub drop_shard : ℕ → List ShardDesc → List ShardDesc
drop_shard shard_id = retain (λ shard. not (shard.id == shard_id))

unfoldable pub with_range : ℕ → ℕ → Bytes → Bytes → ShardDesc
with_range shard_id table_id start end = record {
  id = shard_id;
  table_id = table_id;
  range = some (record { start = start; end = end });
}

-- A shard's change counts in the upper half of an epoch, and a change of replicas in the lower half.
unfoldable pub apply_shard_delta : ℕ → ℕ
apply_shard_delta epoch = (epoch + 2 ^ 32) % 2 ^ 64

unfoldable pub apply_config_delta : ℕ → ℕ
apply_config_delta epoch = (epoch + 1) % 2 ^ 64

unfoldable pub shard_epoch : ℕ → ℕ
shard_epoch epoch = epoch / 2 ^ 32

unfoldable pub config_epoch : ℕ → ℕ
config_epoch epoch = epoch % 2 ^ 32
