-- ===== src/Replica/Fsm/Epochs/Parts.antt =====
-- The epoch of a group's descriptor under each part of an operation: server/src/replica/fsm/mod.rs and
-- api/src/lib.rs.
use sekv.Prelude.{
  ℕ, ◌==◌, ◌≡◌, ◌≤◌, ◌<◌, ◌⊎◌, ◌+◌, ◌*◌, refl, ap, ◌∙◌, sym, Bool, true, false, Option, none, some,
  List, [], ◌∷◌, arith, inl, inr,
}
use mathlib.Core.Path.{subst}
use sekv.Api.{ShardDesc, MoveShardDesc}
use sekv.Api.Group.{GroupDesc, ChangeReplica, find_shard, apply_shard_delta}
use sekv.Result.{Result, ok, err, ok_or, panicked, >>=-eq-ok, ok-eq, invalid_data}
use sekv.Schema.Shard.{belong_to}
use sekv.Prelude.Bytes.{eq_bytes}
use sekv.Replica.Config.{
  change_replicas, apply_leave_joint, apply_simple_change, apply_enter_joint,
  check_not_in_joint_state, role_at, enter_joint_all,
}
use sekv.Replica.Shards.{
  SplitShard, MergeShard, guard, max, moved, apply_split_shard, apply_merge_shard,
  apply_moving_shard,
}
use sekv.Replica.Fsm.{
  MoveShardState, MoveShardEvent, setup, ingest, commit_event, abort_event, apply_event, MoveShard,
  GroupStateMachine, must_move_shard_state, apply_move_shard_event, add_new, changed,
}

-- 2^63 and 2^32
abbrev pub half : ℕ
half = 9223372036854775808

abbrev pub delta : ℕ
delta = 4294967296

-- An epoch that some changes of shards have counted in.
abbrev pub Fits : ℕ → GroupDesc → Type 0
Fits n desc = desc.epoch < half + n * delta

-- A descriptor is as it was, or its epoch grew.
abbrev pub Newer : GroupDesc → GroupDesc → Type 0
Newer old new = (new ≡ old) ⊎ (old.epoch < new.epoch)

pub Newer-trans : {a b c : GroupDesc} → Newer a b → Newer b c → Newer a c
Newer-trans {a} {b} {c} (inl e) (inl d) = inl (d ∙ e)
Newer-trans {a} {b} {c} (inl e) (inr k) = inr (subst (λ (g : GroupDesc). g.epoch < c.epoch) e k)
Newer-trans {a} {b} {c} (inr k) (inl d) =
    inr (subst (λ (g : GroupDesc). a.epoch < g.epoch) (sym d) k)
Newer-trans (inr k) (inr l) = inr (omega arith)

apply_shard_delta-eq :
    (n epoch : ℕ) → n ≤ 3 → epoch < half + n * delta → apply_shard_delta epoch ≡ epoch + delta
unfolding apply_shard_delta
apply_shard_delta-eq n epoch l h = omega arith

-- What a part of an operation makes of the descriptor.
abbrev pub Grows : ℕ → GroupDesc → GroupDesc → Type 0
Grows n old new = Newer old new × Fits (n + 1) new

grown :
    (n : ℕ) (old new : GroupDesc)
    → n ≤ 3
    → Fits n old
    → new.epoch ≡ apply_shard_delta old.epoch
    → Grows n old new
grown n old new l f e =
    let d = apply_shard_delta-eq n old.epoch l f in (inr (omega (arith, e, d)), omega (arith, e, d))

pub kept : (n : ℕ) (old new : GroupDesc) → Fits n old → old ≡ new → Grows n old new
kept n old new f e = (inl (sym e), subst (Fits (n + 1)) e (omega arith))

pub add_new-Grows :
    (n : ℕ) (existed : Option ShardDesc) (shard : ShardDesc) (desc : GroupDesc)
    (self : GroupStateMachine) (next : GroupDesc × GroupStateMachine)
    → n ≤ 3
    → Fits n desc
    → add_new existed shard desc self ≡ ok next
    → Grows n desc next.0
add_new-Grows n (some x) shard desc self next l f h = absurd (cc)
add_new-Grows n none shard desc self next l f h =
    grown n desc next.0 l f (sym (ap (λ (p : GroupDesc × GroupStateMachine). p.0.epoch) (ok-eq h)))

pub split-Grows :
    (n : ℕ) (split : SplitShard) (desc after : GroupDesc)
    → n ≤ 3
    → Fits n desc
    → apply_split_shard split desc ≡ ok after
    → Grows n desc after
unfolding apply_split_shard
split-Grows n split desc after l f h =
    let a = >>=-eq-ok (ok_or (find_shard split.old_shard_id desc.shards) invalid_data) _ h in
    let b = >>=-eq-ok (ok_or (ShardDesc.range a.0) invalid_data) _ a.2 in
    let c = >>=-eq-ok (guard (belong_to a.0 split.split_key)) _ b.2 in
    grown n desc after l f (sym (ap (λ (g : GroupDesc). g.epoch) (ok-eq c.2)))

pub merge-Grows :
    (n : ℕ) (merge : MergeShard) (desc after : GroupDesc)
    → n ≤ 3
    → Fits n desc
    → apply_merge_shard merge desc ≡ ok after
    → Grows n desc after
unfolding apply_merge_shard
merge-Grows n merge desc after l f h =
    let a = >>=-eq-ok (ok_or (find_shard merge.left_shard_id desc.shards) invalid_data) _ h in
    let b = >>=-eq-ok (ok_or (find_shard merge.right_shard_id desc.shards) invalid_data) _ a.2 in
    let c = >>=-eq-ok (guard (ShardDesc.table_id a.0 == ShardDesc.table_id b.0)) _ b.2 in
    let d = >>=-eq-ok (ok_or (ShardDesc.range a.0) invalid_data) _ c.2 in
    let e = >>=-eq-ok (ok_or (ShardDesc.range b.0) invalid_data) _ d.2 in
    let g = >>=-eq-ok (guard (eq_bytes d.0.end e.0.start)) _ e.2 in
    grown n desc after l f (sym (ap (λ (g : GroupDesc). g.epoch) (ok-eq g.2)))

-- The epochs of the move that the group is in.
abbrev pub MoveFits : GroupStateMachine → Type 0
MoveFits self =
    (state : MoveShardState) (d : MoveShardDesc)
    → must_move_shard_state self ≡ ok state
    → state.move_shard ≡ some d
    → (d.src_group_epoch < half) × (d.dest_group_epoch < half)

moved-epoch :
    (epoch : ℕ) (shard : ShardDesc) (desc : GroupDesc) (out : Bool)
    → (moved epoch shard desc out).0.epoch ≡ epoch
moved-epoch epoch shard desc true = refl
moved-epoch epoch shard desc false = refl

moving-Grows :
    (n : ℕ) (d : MoveShardDesc) (desc : GroupDesc) (next : GroupDesc × Option ShardDesc)
    → n ≤ 3
    → Fits n desc
    → (d.src_group_epoch < half) × (d.dest_group_epoch < half)
    → apply_moving_shard d desc ≡ ok next
    → Grows n desc next.0
unfolding apply_moving_shard
moving-Grows n d desc next l f m h =
    let inherited = max desc.epoch (max d.src_group_epoch d.dest_group_epoch) in
    let a = >>=-eq-ok (ok_or d.shard_desc panicked) _ h in
    let e : next.0.epoch ≡ apply_shard_delta inherited =
      ap (λ (p : GroupDesc × Option ShardDesc). p.0.epoch) (sym (ok-eq a.2))
      ∙ moved-epoch (apply_shard_delta inherited) a.0 desc (d.src_group_id == desc.id) in
    let below : inherited < half + n * delta = ground arith in
    let above : desc.epoch ≤ inherited = ground arith in
    let g = apply_shard_delta-eq n inherited l below in
    (inr (omega (arith, e, g, above)), omega (arith, e, g, below))

pub event-Grows :
    (n : ℕ) (event : MoveShardEvent) (m : MoveShard) (desc : GroupDesc) (self : GroupStateMachine)
    (next : GroupDesc × GroupStateMachine)
    → n ≤ 3
    → Fits n desc
    → MoveFits self
    → apply_move_shard_event event m desc self ≡ ok next
    → Grows n desc next.0
unfolding apply_move_shard_event
event-Grows n setup m desc self next l f fits h =
    kept n desc next.0 f (ap (λ (p : GroupDesc × GroupStateMachine). p.0) (ok-eq h))
event-Grows n ingest m desc self next l f fits h =
    let s = >>=-eq-ok (must_move_shard_state self) _ h in
    kept n desc next.0 f (ap (λ (p : GroupDesc × GroupStateMachine). p.0) (ok-eq s.2))
event-Grows n commit_event m desc self next l f fits h =
    let s = >>=-eq-ok (must_move_shard_state self) _ h in
    kept n desc next.0 f (ap (λ (p : GroupDesc × GroupStateMachine). p.0) (ok-eq s.2))
event-Grows n abort_event m desc self next l f fits h =
    let s = >>=-eq-ok (must_move_shard_state self) _ h in
    kept n desc next.0 f (ap (λ (p : GroupDesc × GroupStateMachine). p.0) (ok-eq s.2))
event-Grows n apply_event m desc self next l f fits h =
    let s = >>=-eq-ok (must_move_shard_state self) _ h in
    let d = >>=-eq-ok (ok_or (MoveShardState.move_shard s.0) panicked) _ s.2 in
    let r = >>=-eq-ok (apply_moving_shard d.0 desc) _ d.2 in
    let found : MoveShardState.move_shard s.0 ≡ some d.0 =
      ok_or-eq (MoveShardState.move_shard s.0) d.1 in
    subst (λ (g : GroupDesc). Grows n desc g)
      (ap (λ (p : GroupDesc × GroupStateMachine). p.0) (ok-eq r.2))
      (moving-Grows n d.0 desc r.0 l f (fits s.0 d.0 s.1 found) r.1)
  where
    ok_or-eq : (o : Option MoveShardDesc) {d : MoveShardDesc} → ok_or o panicked ≡ ok d → o ≡ some d
    ok_or-eq none h = absurd (cc)
    ok_or-eq (some x) h = ap some (ok-eq h)

pub changed-eq-ok :
    (result : Result GroupDesc) (self : GroupStateMachine) (next : GroupDesc × GroupStateMachine)
    → changed result self ≡ ok next
    → result ≡ ok next.0
changed-eq-ok (ok desc) self next h = ap (λ (p : GroupDesc × GroupStateMachine). ok p.0) (ok-eq h)
changed-eq-ok (err x) self next h = absurd (cc)

pub change_replicas-epoch :
    (changes : List ChangeReplica) (desc next : GroupDesc)
    → change_replicas changes desc ≡ ok next
    → next.epoch ≡ desc.epoch
unfolding change_replicas apply_leave_joint apply_simple_change apply_enter_joint
change_replicas-epoch [] desc next h = sym (ap (λ (g : GroupDesc). g.epoch) (ok-eq h))
change_replicas-epoch (change ∷ []) desc next h =
    let c = >>=-eq-ok (check_not_in_joint_state (role_at change.replica_id desc.replicas)) _ h in
    sym (ap (λ (g : GroupDesc). g.epoch) (ok-eq c.2))
change_replicas-epoch (change ∷ (second ∷ changes)) desc next h =
    let c = >>=-eq-ok (enter_joint_all (change ∷ (second ∷ changes)) (desc.replicas, [])) _ h in
    sym (ap (λ (g : GroupDesc). g.epoch) (ok-eq c.2))
