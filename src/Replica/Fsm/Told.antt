-- ===== src/Replica/Fsm/Told.antt =====
-- What the observer of a replica knows after a round of entries: server/src/replica/fsm/mod.rs.
use sekv.Prelude.{ℕ, ◌≡◌, refl, ◌∙◌, ltb, Bool, true, false, Option, none, some, List, [], ◌∷◌}
use mathlib.Core.Path.{subst}
use sekv.Prelude.Bytes.{Bytes}
use sekv.Api.{ShardDesc, MoveShardDesc}
use sekv.Api.Group.{GroupDesc, find_shard}
use sekv.Result.{Result, ok, err, ◌>>=◌, ok_or, panicked, >>=-eq-ok, ok-eq}
use sekv.Replica.Config.{change_replicas}
use sekv.Replica.Shards.{
  SplitShard, MergeShard, apply_split_shard, apply_merge_shard, apply_moving_shard,
}
use sekv.Replica.Fsm.{
  MoveShardState, MoveShardEvent, setup, ingest, commit_event, abort_event, apply_event, MoveShard,
  SyncOp, ApplyEntry, empty, config_change, proposal, ApplyState, GroupStateMachine, descriptor,
  must_move_shard_state, apply_change_replicas, apply_move_shard_event, apply_add_shard,
  apply_move_shard, apply_split, apply_merge, changed, apply_op, plug_batch, apply_proposal,
  apply_entry, apply, apply_core_states, group_commit, flush_updated_events, start_plug,
  finish_plug, apply_all, apply_plugged, set_up, add_new, Observer, tell_state, tell_term,
  tell_descriptor, kept_state, finish,
}

-- The observer knows a descriptor, unless it is to be told.
abbrev Knows : GroupDesc → GroupStateMachine → Type 0
Knows desc self = self.desc_updated ≡ false → self.observer.descriptor ≡ some desc

abbrev KnowsBoth : GroupDesc × GroupStateMachine → Type 0
KnowsBoth (desc, self) = Knows desc self

-- The parts of an operation keep what the observer knows of the descriptor that they change.
apply_move_shard_event-KnowsBoth :
    (event : MoveShardEvent) (m : MoveShard) (desc : GroupDesc) (self : GroupStateMachine)
    (next : GroupDesc × GroupStateMachine)
    → Knows desc self
    → apply_move_shard_event event m desc self ≡ ok next
    → KnowsBoth next
unfolding apply_move_shard_event
apply_move_shard_event-KnowsBoth setup m desc self next k h =
    subst KnowsBoth (ok-eq h) (by_desc m.desc)
  where
    by_desc : (d : Option MoveShardDesc) → Knows desc (set_up d self)
    by_desc none = k
    by_desc (some d) = k
apply_move_shard_event-KnowsBoth ingest m desc self next k h =
    let s = >>=-eq-ok (must_move_shard_state self) _ h in subst KnowsBoth (ok-eq s.2) k
apply_move_shard_event-KnowsBoth commit_event m desc self next k h =
    let s = >>=-eq-ok (must_move_shard_state self) _ h in subst KnowsBoth (ok-eq s.2) k
apply_move_shard_event-KnowsBoth abort_event m desc self next k h =
    let s = >>=-eq-ok (must_move_shard_state self) _ h in subst KnowsBoth (ok-eq s.2) k
apply_move_shard_event-KnowsBoth apply_event m desc self next k h =
    let s = >>=-eq-ok (must_move_shard_state self) _ h in
    let d = >>=-eq-ok (ok_or s.0.move_shard panicked) _ s.2 in
    let r = >>=-eq-ok (apply_moving_shard d.0 desc) _ d.2 in
    subst KnowsBoth (ok-eq r.2) (λ e. absurd (cc))

apply_add_shard-KnowsBoth :
    (shard : Option (Option ShardDesc)) (state next : GroupDesc × GroupStateMachine)
    → KnowsBoth state
    → apply_add_shard shard state ≡ ok next
    → KnowsBoth next
unfolding apply_add_shard
apply_add_shard-KnowsBoth none state next k h = subst KnowsBoth (ok-eq h) k
apply_add_shard-KnowsBoth (some none) state next k h = subst KnowsBoth (ok-eq h) k
apply_add_shard-KnowsBoth (some (some shard)) (desc, self) next k h =
    by_existed (find_shard shard.id desc.shards) h
  where
    by_existed :
        (existed : Option ShardDesc) → add_new existed shard desc self ≡ ok next → KnowsBoth next
    by_existed none h = subst KnowsBoth (ok-eq h) (λ e. absurd (cc))
    by_existed (some x) h = absurd (cc)

changed-KnowsBoth :
    (result : Result GroupDesc) (self : GroupStateMachine) (next : GroupDesc × GroupStateMachine)
    → changed result self ≡ ok next
    → KnowsBoth next
changed-KnowsBoth (ok desc) self next h = subst KnowsBoth (ok-eq h) (λ e. absurd (cc))
changed-KnowsBoth (err x) self next h = absurd (cc)

-- The descriptor that entries are applied to is the one that the observer knows.
abbrev pub IsTold : GroupStateMachine → Type 0
IsTold self = Knows (descriptor self) self

apply_op-IsTold :
    (op : Option SyncOp) (self next : GroupStateMachine)
    → IsTold self
    → apply_op op self ≡ ok next
    → IsTold next
unfolding apply_op apply_move_shard apply_split apply_merge descriptor
apply_op-IsTold none self next k h = subst IsTold (ok-eq h) k
apply_op-IsTold (some op) self next k h =
    let a = >>=-eq-ok (apply_add_shard op.add_shard (descriptor self, self)) _ h in
    let b = >>=-eq-ok (apply_move_shard op.move_shard a.0) _ a.2 in
    let c = >>=-eq-ok (apply_split op.split_shard b.0) _ b.2 in
    let d = >>=-eq-ok (apply_merge op.merge_shard c.0) _ c.2 in
    let added = apply_add_shard-KnowsBoth op.add_shard (descriptor self, self) a.0 k a.1 in
    subst IsTold (ok-eq d.2) (
      by_merge op.merge_shard c.0 d.0
        (by_split op.split_shard b.0 c.0 (by_move op.move_shard a.0 b.0 added b.1) c.1) d.1)
  where
    by_move :
        (m : Option MoveShard) (state next : GroupDesc × GroupStateMachine)
        → KnowsBoth state
        → apply_move_shard m state ≡ ok next
        → KnowsBoth next
    by_move none state next k h = subst KnowsBoth (ok-eq h) k
    by_move (some m) (desc, self) next k h =
        apply_move_shard_event-KnowsBoth m.event m desc self next k h

    by_split :
        (s : Option SplitShard) (state next : GroupDesc × GroupStateMachine)
        → KnowsBoth state
        → apply_split s state ≡ ok next
        → KnowsBoth next
    by_split none state next k h = subst KnowsBoth (ok-eq h) k
    by_split (some s) (desc, self) next k h =
        changed-KnowsBoth (apply_split_shard s desc) self next h

    by_merge :
        (m : Option MergeShard) (state next : GroupDesc × GroupStateMachine)
        → KnowsBoth state
        → apply_merge m state ≡ ok next
        → KnowsBoth next
    by_merge none state next k h = subst KnowsBoth (ok-eq h) k
    by_merge (some m) (desc, self) next k h =
        changed-KnowsBoth (apply_merge_shard m desc) self next h

plug_batch-IsTold :
    (batch : Option Bytes) (self : GroupStateMachine) → IsTold self → IsTold (plug_batch batch self)
unfolding descriptor
plug_batch-IsTold none self k = k
plug_batch-IsTold (some batch) self k = k

apply_entry-IsTold :
    (entry : ApplyEntry) (self next : GroupStateMachine)
    → IsTold self
    → apply_entry entry self ≡ ok next
    → IsTold next
unfolding apply_entry apply_change_replicas apply_proposal
apply_entry-IsTold empty self next k h = subst IsTold (ok-eq h) k
apply_entry-IsTold (config_change changes) self next k h =
    let d = >>=-eq-ok (change_replicas changes (descriptor self)) _ h in
    subst IsTold (ok-eq d.2) (λ e. absurd (cc))
apply_entry-IsTold (proposal eval_result) self next k h =
    apply_op-IsTold eval_result.op (plug_batch eval_result.batch self) next
      (plug_batch-IsTold eval_result.batch self k) h

apply_all-IsTold :
    (entries : List (ℕ × (ℕ × ApplyEntry))) (self next : GroupStateMachine)
    → IsTold self
    → apply_all entries self ≡ ok next
    → IsTold next
unfolding apply_all apply descriptor
apply_all-IsTold [] self next k h = subst IsTold (ok-eq h) k
apply_all-IsTold ((index, (term, entry)) ∷ entries) self next k h =
    let a = >>=-eq-ok (apply index term entry self) (λ mid. apply_all entries mid) h in
    let b = >>=-eq-ok (apply_entry entry self) _ a.1 in
    apply_all-IsTold entries a.0 next
      (subst IsTold (ok-eq b.2) (apply_entry-IsTold entry self b.0 k b.1)) a.2

-- What is told of the state or of the term leaves what was told of the descriptor.
tell_state-descriptor :
    (updated : Bool) (state : Option MoveShardState) (observer : Observer)
    → (tell_state updated state observer).descriptor ≡ observer.descriptor
tell_state-descriptor true state observer = refl
tell_state-descriptor false state observer = refl

tell_term-descriptor :
    (newer : Bool) (term : ℕ) (observer : Observer)
    → (tell_term newer term observer).descriptor ≡ observer.descriptor
tell_term-descriptor true term observer = refl
tell_term-descriptor false term observer = refl

tell_descriptor_lem :
    (updated : Bool) (desc : GroupDesc) (observer : Observer)
    → (updated ≡ false → observer.descriptor ≡ some desc)
    → (tell_descriptor updated desc observer).descriptor ≡ some desc
tell_descriptor_lem true desc observer k = refl
tell_descriptor_lem false desc observer k = k refl

flush_updated_events-told :
    (term : ℕ) (self : GroupStateMachine)
    → IsTold self
    → (flush_updated_events term (group_commit self)).observer.descriptor ≡ some (descriptor self)
unfolding flush_updated_events group_commit apply_core_states descriptor
flush_updated_events-told term self k =
    let newer = ltb self.last_applied_term term in
    let desc = descriptor self in
    let told = tell_descriptor self.desc_updated desc self.observer in
    tell_state-descriptor self.move_shard_state_updated
      (kept_state self.plugged_write_states.move_shard_state self.engine.move_shard_state)
      (tell_term newer term told)
    ∙ tell_term-descriptor newer term told
    ∙ tell_descriptor_lem self.desc_updated desc self.observer k

-- The engine holds a descriptor, the observer knows it and what entries would be applied to, and nothing is
-- plugged.
abbrev pub IsFlushed : GroupDesc → GroupStateMachine → Type 0
IsFlushed desc self =
    (self.engine.group_desc ≡ desc)
    × (self.observer.descriptor ≡ some desc)
    × (start_plug self ≡ ok tt)
    × IsTold self

finish-IsFlushed :
    (state : Option ApplyState) (written : Result (Unit {0})) (self next : GroupStateMachine)
    → IsTold self
    → finish state written self ≡ ok next
    → IsFlushed (descriptor self) next
unfolding flush_updated_events group_commit apply_core_states descriptor start_plug
finish-IsFlushed none written self next k h = absurd (cc)
finish-IsFlushed (some state) (err e) self next k h = absurd (cc)
finish-IsFlushed (some state) (ok w) self next k h = subst (IsFlushed (descriptor self)) (ok-eq h) (
  refl,
  flush_updated_events-told state.term self k,
  refl,
  λ e. flush_updated_events-told state.term self k,
)

-- After a round of entries the engine holds the descriptor that the entries made, the observer was told just
-- that descriptor, and nothing is left for the next round, where the round returns and the observer knew the
-- descriptor before it, or was to be told.
pub apply_plugged-IsFlushed :
    (written : Result (Unit {0})) (entries : List (ℕ × (ℕ × ApplyEntry)))
    (self next : GroupStateMachine)
    → IsTold self
    → apply_plugged written entries self ≡ ok next
    → (applied : GroupStateMachine) × (apply_all entries self ≡ ok applied)
      × IsFlushed (descriptor applied) next
unfolding apply_plugged finish_plug
apply_plugged-IsFlushed written entries self next k h =
    let a =
      >>=-eq-ok (start_plug self) (λ s. apply_all entries self >>= λ n. finish_plug written n) h in
    let b = >>=-eq-ok (apply_all entries self) (λ n. finish_plug written n) a.2 in
    (
      b.0,
      b.1,
      finish-IsFlushed b.0.plugged_write_states.apply_state written b.0 next
          (apply_all-IsTold entries self b.0 k b.1) b.2,
    )
