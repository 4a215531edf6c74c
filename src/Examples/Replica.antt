-- ===== src/Examples/Replica.antt =====
-- Changes of a group with two shards and three replicas.
use sekv.Prelude.{ℕ, ◌+◌, ◌≡◌, refl, false, none, some, List, [], ◌∷◌, arith}
use sekv.Prelude.Bytes.{Bytes, cmp}
use sekv.Api.{ShardDesc, RangePartition}
use sekv.Api.Group.{
  ReplicaDesc, voter, ChangeReplica, ChangeReplicaType, add, remove, GroupDesc, find_shard,
  apply_shard_delta,
}
use sekv.Schema.Shard.{belong_to, in_range}
use sekv.Result.{Result, ok, err}
use sekv.Replica.Config.{role_at, check_not_in_joint_state, apply_enter_joint, apply_leave_joint}
use sekv.Replica.Config.Joint.{change_of, pending_role, apply_leave_joint-apply_enter_joint}
use sekv.Replica.Shards.{SplitShard, MergeShard, apply_split_shard, apply_merge_shard}
use sekv.Replica.Shards.Ranges.{count}
use sekv.Replica.Shards.Owners.{owners, owns}
use sekv.Replica.Shards.Changes.{
  Mergeable, apply_split_shard-owners, apply_merge_shard-owners, apply_merge_shard-loses,
}
use sekv.Replica.Fsm.{
  GroupStateMachine, ApplyEntry, proposal, apply_plugged, apply_all, descriptor, apply_entry,
  must_move_shard_state, no_write_states,
}
use sekv.Replica.Fsm.Told.{IsFlushed, apply_plugged-IsFlushed}
use sekv.Replica.Fsm.Epochs.{apply_entry-Newer}
use sekv.Replica.Fsm.Epochs.Parts.{Newer}

abbrev low : RangePartition
low = record { start = []; end = 109 ∷ [] }

abbrev high : RangePartition
high = record { start = 109 ∷ []; end = [] }

abbrev left : ShardDesc
left = record { id = 1; table_id = 9; range = some low }

abbrev right : ShardDesc
right = record { id = 2; table_id = 9; range = some high }

abbrev replica : ℕ → ReplicaDesc
replica id = record { id = id; node_id = id; role = voter }

abbrev group : GroupDesc
group = record {
  id = 7;
  epoch = 3;
  shards = left ∷ right ∷ [];
  replicas = replica 1 ∷ replica 2 ∷ [];
}

abbrev changes : List ChangeReplica
changes =
    record { change_type = add; replica_id = 3; node_id = 3 }
    ∷ record { change_type = remove; replica_id = 1; node_id = 1 }
    ∷ []

apply_leave_joint-apply_enter_joint_example :
    (mid : GroupDesc) × (apply_enter_joint group changes ≡ ok mid)
    × ((i : ℕ)
        → role_at i (GroupDesc.replicas (apply_leave_joint mid))
          ≡ pending_role (change_of i changes) (role_at i group.replicas))
unfolding role_at check_not_in_joint_state
apply_leave_joint-apply_enter_joint_example =
    apply_leave_joint-apply_enter_joint group changes (refl, (refl, tt)) settled
  where
    settled :
        (i : ℕ) (type : ChangeReplicaType)
        → change_of i changes ≡ some type
        → check_not_in_joint_state (role_at i group.replicas) ≡ ok tt
    settled i type h = ground arith

abbrev split : SplitShard
split = record { old_shard_id = 1; new_shard_id = 3; split_key = 99 ∷ [] }

apply_split_shard-owners_example :
    (after : GroupDesc) × (apply_split_shard split group ≡ ok after)
    × (after.epoch ≡ apply_shard_delta group.epoch)
    × ((table_id : ℕ) (key : Bytes)
        → owners table_id key after.shards ≡ owners table_id key group.shards)
unfolding find_shard belong_to in_range cmp
apply_split_shard-owners_example =
    apply_split_shard-owners split group left low refl refl refl (λ e. cc)

abbrev merge : MergeShard
merge = record { left_shard_id = 1; right_shard_id = 2 }

mergeable : Mergeable merge group left right low high
unfolding find_shard
mergeable = record {
  unique = (refl, (refl, tt));
  apart = λ e. omega arith;
  found_left = refl;
  found_right = refl;
  one_table = refl;
  ranged_left = refl;
  ranged_right = refl;
  meet = refl;
}

apply_merge_shard-owners_example :
    (after : GroupDesc) × (apply_merge_shard merge group ≡ ok after)
    × (after.epoch ≡ apply_shard_delta group.epoch)
    × ((table_id : ℕ) (key : Bytes)
        → owners table_id key after.shards ≡ owners table_id key group.shards)
unfolding cmp
apply_merge_shard-owners_example =
    apply_merge_shard-owners merge group left right low high mergeable refl refl

-- The last shard with the first.
abbrev round : MergeShard
round = record { left_shard_id = 2; right_shard_id = 1 }

round-Mergeable : Mergeable round group right left high low
unfolding find_shard
round-Mergeable = record {
  unique = (refl, (refl, tt));
  apart = λ e. omega arith;
  found_left = refl;
  found_right = refl;
  one_table = refl;
  ranged_left = refl;
  ranged_right = refl;
  meet = refl;
}

apply_merge_shard-loses_example :
    (after : GroupDesc) × (apply_merge_shard round group ≡ ok after)
    × ((table_id : ℕ) (key : Bytes)
        → owners table_id key after.shards
            + (count (owns table_id key right) + count (owns table_id key left))
          ≡ owners table_id key group.shards)
unfolding cmp
apply_merge_shard-loses_example =
    apply_merge_shard-loses round group right left high low round-Mergeable refl refl

abbrev machine : GroupStateMachine
machine = record {
  engine = record { group_desc = group; move_shard_state = none };
  observer = record { descriptor = some group; term = none; move_shard_state = none };
  plugged_write_batches = [];
  plugged_write_states = no_write_states;
  move_out_shards = [];
  desc_updated = false;
  move_shard_state_updated = false;
  last_applied_term = 1;
}

abbrev entry : ApplyEntry
entry = proposal (record {
  batch = some (1 ∷ []);
  op = some (record {
    add_shard = none;
    move_shard = none;
    split_shard = some split;
    merge_shard = none;
  });
})

abbrev machine_of : Result GroupStateMachine → GroupStateMachine
machine_of (ok m) = m
machine_of (err e) = machine

abbrev entries : List (ℕ × (ℕ × ApplyEntry))
entries = (5, (2, entry)) ∷ []

flushes :
    apply_plugged (ok tt) entries machine ≡ ok (machine_of (apply_plugged (ok tt) entries machine))
unfolding apply_plugged apply_split_shard belong_to cmp
flushes = refl

apply_plugged-IsFlushed_example :
    (applied : GroupStateMachine) × (apply_all entries machine ≡ ok applied)
    × IsFlushed (descriptor applied) (machine_of (apply_plugged (ok tt) entries machine))
unfolding descriptor
apply_plugged-IsFlushed_example =
    apply_plugged-IsFlushed (ok tt) entries machine
      (machine_of (apply_plugged (ok tt) entries machine)) (λ e. refl) flushes

applies : apply_entry entry machine ≡ ok (machine_of (apply_entry entry machine))
unfolding apply_entry apply_split_shard belong_to cmp
applies = refl

apply_entry-Newer_example :
    Newer (descriptor machine) (descriptor (machine_of (apply_entry entry machine)))
unfolding descriptor must_move_shard_state
apply_entry-Newer_example =
    apply_entry-Newer entry machine (machine_of (apply_entry entry machine)) (omega arith)
      (λ state d h k. absurd (cc)) applies
