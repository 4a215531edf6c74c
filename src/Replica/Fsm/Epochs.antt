-- ===== src/Replica/Fsm/Epochs.antt =====
-- The epoch of a group's descriptor under the entries that are applied: server/src/replica/fsm/mod.rs and
-- api/src/lib.rs.
pub mod Parts
use sekv.Replica.Fsm.Epochs.Parts.{
  half, delta, Fits, Newer, Newer-trans, Grows, kept, MoveFits, add_new-Grows, split-Grows,
  merge-Grows, event-Grows, changed-eq-ok, change_replicas-epoch,
}
use sekv.Prelude.{
  ℕ, ◌==◌, ◌≡◌, ◌≤◌, ◌<◌, ◌⊎◌, ◌+◌, ◌*◌, ◌%◌, ◌^◌, refl, ap, ◌∙◌, sym, ltb, Bool, true, false,
  Option, none, some, List, [], ◌∷◌, arith, inl, inr,
}
use mathlib.Core.Path.{subst}
use sekv.Api.{ShardDesc, MoveShardDesc}
use sekv.Api.Group.{GroupDesc, ChangeReplica, find_shard, apply_shard_delta, apply_config_delta}
use sekv.Result.{Result, ok, err, ◌>>=◌, ok_or, panicked, >>=-eq-ok, ok-eq, invalid_data}
use sekv.Schema.Shard.{belong_to}
use sekv.Prelude.Bytes.{Bytes, eq_bytes}
use sekv.Replica.Config.{
  change_replicas, apply_leave_joint, apply_simple_change, apply_enter_joint,
  check_not_in_joint_state, role_at, enter_joint_all,
}
use sekv.Replica.Shards.{
  SplitShard, MergeShard, guard, max, moved, apply_split_shard, apply_merge_shard,
  apply_moving_shard,
}
use sekv.Replica.Fsm.{
  MoveShardState, MoveShardEvent, setup, ingest, commit_event, abort_event, apply_event, MoveShard,
  SyncOp, EvalResult, ApplyEntry, empty, config_change, proposal, GroupStateMachine, descriptor,
  must_move_shard_state, apply_change_replicas, apply_move_shard_event, apply_add_shard, add_new,
  apply_move_shard, apply_split, apply_merge, changed, apply_op, plug_batch, apply_proposal,
  apply_entry,
}

-- The first part of an operation leaves the move as it is.
apply_add_shard-Grows :
    (shard : Option (Option ShardDesc)) (desc : GroupDesc) (self : GroupStateMachine)
    (next : GroupDesc × GroupStateMachine)
    → Fits 0 desc
    → MoveFits self
    → apply_add_shard shard (desc, self) ≡ ok next
    → Grows 0 desc next.0 × MoveFits next.1
unfolding apply_add_shard must_move_shard_state
apply_add_shard-Grows none desc self next f m h = (
  kept 0 desc next.0 f (ap (λ (p : GroupDesc × GroupStateMachine). p.0) (ok-eq h)),
  subst MoveFits (ap (λ (p : GroupDesc × GroupStateMachine). p.1) (ok-eq h)) m,
)
apply_add_shard-Grows (some none) desc self next f m h = (
  kept 0 desc next.0 f (ap (λ (p : GroupDesc × GroupStateMachine). p.0) (ok-eq h)),
  subst MoveFits (ap (λ (p : GroupDesc × GroupStateMachine). p.1) (ok-eq h)) m,
)
apply_add_shard-Grows (some (some shard)) desc self next f m h = (
  add_new-Grows 0 (find_shard shard.id desc.shards) shard desc self next (omega arith) f h,
  by_existed (find_shard shard.id desc.shards) h,
)
  where
    by_existed :
        (existed : Option ShardDesc) → add_new existed shard desc self ≡ ok next → MoveFits next.1
    by_existed (some x) k = absurd (cc)
    by_existed none k = subst MoveFits (ap (λ (p : GroupDesc × GroupStateMachine). p.1) (ok-eq k)) m

apply_move_shard-Grows :
    (m : Option MoveShard) (state next : GroupDesc × GroupStateMachine)
    → Fits 1 state.0
    → MoveFits state.1
    → apply_move_shard m state ≡ ok next
    → Grows 1 state.0 next.0
unfolding apply_move_shard
apply_move_shard-Grows none state next f fits h =
    kept 1 state.0 next.0 f (ap (λ (p : GroupDesc × GroupStateMachine). p.0) (ok-eq h))
apply_move_shard-Grows (some m) (desc, self) next f fits h =
    event-Grows 1 m.event m desc self next (omega arith) f fits h

apply_split-Grows :
    (split : Option SplitShard) (state next : GroupDesc × GroupStateMachine)
    → Fits 2 state.0
    → apply_split split state ≡ ok next
    → Grows 2 state.0 next.0
unfolding apply_split
apply_split-Grows none state next f h =
    kept 2 state.0 next.0 f (ap (λ (p : GroupDesc × GroupStateMachine). p.0) (ok-eq h))
apply_split-Grows (some split) (desc, self) next f h =
    split-Grows 2 split desc next.0 (omega arith) f
      (changed-eq-ok (apply_split_shard split desc) self next h)

apply_merge-Grows :
    (merge : Option MergeShard) (state next : GroupDesc × GroupStateMachine)
    → Fits 3 state.0
    → apply_merge merge state ≡ ok next
    → Grows 3 state.0 next.0
unfolding apply_merge
apply_merge-Grows none state next f h =
    kept 3 state.0 next.0 f (ap (λ (p : GroupDesc × GroupStateMachine). p.0) (ok-eq h))
apply_merge-Grows (some merge) (desc, self) next f h =
    merge-Grows 3 merge desc next.0 (omega arith) f
      (changed-eq-ok (apply_merge_shard merge desc) self next h)

apply_op-Newer :
    (op : Option SyncOp) (self next : GroupStateMachine)
    → GroupDesc.epoch (descriptor self) < half
    → MoveFits self
    → apply_op op self ≡ ok next
    → Newer (descriptor self) (descriptor next)
unfolding apply_op descriptor
apply_op-Newer none self next f m h =
    inl (ap (λ (s : GroupStateMachine). descriptor s) (sym (ok-eq h)))
apply_op-Newer (some op) self next f m h =
    let a = >>=-eq-ok (apply_add_shard op.add_shard (descriptor self, self)) _ h in
    let b = >>=-eq-ok (apply_move_shard op.move_shard a.0) _ a.2 in
    let c = >>=-eq-ok (apply_split op.split_shard b.0) _ b.2 in
    let d = >>=-eq-ok (apply_merge op.merge_shard c.0) _ c.2 in
    let added = apply_add_shard-Grows op.add_shard (descriptor self) self a.0 (omega arith) m a.1 in
    let arrived = apply_move_shard-Grows op.move_shard a.0 b.0 added.0.1 added.1 b.1 in
    let split = apply_split-Grows op.split_shard b.0 c.0 arrived.1 c.1 in
    let merged = apply_merge-Grows op.merge_shard c.0 d.0 split.1 d.1 in
    subst (λ (s : GroupStateMachine). Newer (descriptor self) (descriptor s)) (ok-eq d.2)
      (Newer-trans (Newer-trans added.0.0 arrived.0) (Newer-trans split.0 merged.0))

plug_batch-descriptor :
    (batch : Option Bytes) (self : GroupStateMachine)
    → descriptor (plug_batch batch self) ≡ descriptor self
unfolding descriptor
plug_batch-descriptor none self = refl
plug_batch-descriptor (some batch) self = refl

plug_batch-MoveFits :
    (batch : Option Bytes) (self : GroupStateMachine)
    → MoveFits self
    → MoveFits (plug_batch batch self)
unfolding must_move_shard_state
plug_batch-MoveFits none self m = m
plug_batch-MoveFits (some batch) self m = m

-- An entry leaves the group's descriptor as it is, or counts its epoch up, where the epochs of the group and of
-- the move that it is in are below 2^63.
pub apply_entry-Newer :
    (entry : ApplyEntry) (self next : GroupStateMachine)
    → GroupDesc.epoch (descriptor self) < half
    → MoveFits self
    → apply_entry entry self ≡ ok next
    → Newer (descriptor self) (descriptor next)
unfolding apply_entry apply_change_replicas apply_proposal apply_config_delta
apply_entry-Newer empty self next f m h =
    inl (ap (λ (s : GroupStateMachine). descriptor s) (sym (ok-eq h)))
apply_entry-Newer (config_change changes) self next f m h =
    let d = >>=-eq-ok (change_replicas changes (descriptor self)) _ h in
    let e = change_replicas-epoch changes (descriptor self) d.0 d.1 in
    subst (λ (s : GroupStateMachine). Newer (descriptor self) (descriptor s)) (ok-eq d.2)
      (inr (counted d.0 e))
  where
    counted :
        (d : GroupDesc)
        → d.epoch ≡ GroupDesc.epoch (descriptor self)
        → GroupDesc.epoch (descriptor self) < apply_config_delta d.epoch
    counted d e = omega arith
apply_entry-Newer (proposal eval_result) self next f m h =
    let batch = eval_result.batch in
    let same = plug_batch-descriptor batch self in
    subst (λ (g : GroupDesc). Newer g (descriptor next)) same
      (apply_op-Newer eval_result.op (plug_batch batch self) next
        (subst (λ (g : GroupDesc). g.epoch < half) (sym same) f) (plug_batch-MoveFits batch self m)
        h)
