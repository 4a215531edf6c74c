-- ===== src/Replica/Fsm.antt =====
-- `GroupStateMachine` of server/src/replica/fsm/mod.rs: entries are applied to what is plugged, and `finish_plug`
-- commits that to the group engine and tells the observer. What rocksdb says to a write is an argument. The
-- watchers of keys, the log's texts and the checks of debug builds are left out.
pub mod Told
pub mod Epochs
use sekv.Prelude.{
  ℕ, ◌==◌, not, ltb, ◌||◌, if◌then◌else◌, Bool, true, false, Option, none, some, List, [], ◌∷◌,
  ◌++◌,
}
use sekv.Prelude.Bytes.{Bytes}
use sekv.Api.{ShardDesc, MoveShardDesc}
use sekv.Api.Group.{GroupDesc, ChangeReplica, find_shard, apply_shard_delta, apply_config_delta}
use sekv.Result.{Result, ok, err, ◌>>=◌, ok_or, panicked}
use sekv.Replica.Config.{change_replicas}
use sekv.Replica.Shards.{
  SplitShard, MergeShard, apply_split_shard, apply_merge_shard, apply_moving_shard,
}

pub data MoveShardStep : Type 0 where
  prepare moving moved finished aborted_step : MoveShardStep

pub record MoveShardState : Type 0 where
  pub move_shard : Option MoveShardDesc
  pub last_moved_key : Option Bytes
  pub step : MoveShardStep

pub data MoveShardEvent : Type 0 where
  setup ingest commit_event abort_event apply_event : MoveShardEvent

pub record MoveShard : Type 0 where
  pub event : MoveShardEvent
  pub desc : Option MoveShardDesc
  pub last_ingested_key : Bytes

-- `SyncOp`, where an addition has its shard, less what the state machine does not read
pub record SyncOp : Type 0 where
  pub add_shard : Option (Option ShardDesc)
  pub move_shard : Option MoveShard
  pub split_shard : Option SplitShard
  pub merge_shard : Option MergeShard

pub record EvalResult : Type 0 where
  pub batch : Option Bytes
  pub op : Option SyncOp

pub data ApplyEntry : Type 0 where
  empty : ApplyEntry
  config_change : List ChangeReplica → ApplyEntry
  proposal : EvalResult → ApplyEntry

pub record ApplyState : Type 0 where
  pub index : ℕ
  pub term : ℕ

pub record WriteStates : Type 0 where
  pub apply_state : Option ApplyState
  pub descriptor : Option GroupDesc
  pub move_shard_state : Option MoveShardState

-- What the engine keeps of a group beside its data, less the map of its shards, which is made from these two.
pub record EngineCore : Type 0 where
  pub group_desc : GroupDesc
  pub move_shard_state : Option MoveShardState

-- What the observer was told last.
pub record Observer : Type 0 where
  pub descriptor : Option GroupDesc
  pub term : Option ℕ
  pub move_shard_state : Option (Option MoveShardState)

pub record GroupStateMachine : Type 0 where
  pub engine : EngineCore
  pub observer : Observer
  pub plugged_write_batches : List Bytes
  pub plugged_write_states : WriteStates
  pub move_out_shards : List ShardDesc
  pub desc_updated : Bool
  pub move_shard_state_updated : Bool
  pub last_applied_term : ℕ

abbrev pub unwrap_or {ℓ} : {A : Type ℓ} → Option A → A → A
unwrap_or none b = b
unwrap_or (some a) b = a

unfoldable pub descriptor : GroupStateMachine → GroupDesc
descriptor self = unwrap_or self.plugged_write_states.descriptor self.engine.group_desc

unfoldable pub must_move_shard_state : GroupStateMachine → Result MoveShardState
must_move_shard_state self = elim (self.plugged_write_states.move_shard_state) [
  | some state ↦ ok state
  | none ↦ ok_or self.engine.move_shard_state panicked
]

abbrev pub with_descriptor : GroupDesc → GroupStateMachine → GroupStateMachine
with_descriptor desc self = record self {
  plugged_write_states = record (self.plugged_write_states) { descriptor = some desc };
}

abbrev pub with_state : MoveShardState → GroupStateMachine → GroupStateMachine
with_state state self = record self {
  plugged_write_states = record (self.plugged_write_states) { move_shard_state = some state };
}

abbrev pub with_step : MoveShardStep → MoveShardState → GroupStateMachine → GroupStateMachine
with_step step state self = record (with_state (record state { step = step }) self) {
  move_shard_state_updated = true;
}

unfoldable pub apply_change_replicas :
    List ChangeReplica → GroupStateMachine → Result GroupStateMachine
unfolding descriptor
apply_change_replicas changes self = do
  desc ← change_replicas changes (descriptor self)
  ok (record (with_descriptor (record desc { epoch = apply_config_delta desc.epoch }) self) {
    desc_updated = true;
  })

-- The shard that moved out is kept by its id.
abbrev pub moved_out : Option ShardDesc → List ShardDesc → List ShardDesc
moved_out none shards = shards
moved_out (some shard) shards = shard ∷ shards

abbrev pub is_prepare : MoveShardStep → Bool
is_prepare prepare = true
is_prepare _ = false

-- `MoveShardEvent::Setup`: a move without a descriptor is let go.
abbrev pub set_up : Option MoveShardDesc → GroupStateMachine → GroupStateMachine
set_up none self = self
set_up (some d) self =
    with_step prepare (record { move_shard = some d; last_moved_key = none; step = prepare }) self

-- `apply_move_shard_event`, by the event
unfoldable pub apply_move_shard_event :
    MoveShardEvent
    → MoveShard
    → GroupDesc
    → GroupStateMachine
    → Result (GroupDesc × GroupStateMachine)
unfolding must_move_shard_state
apply_move_shard_event setup m desc self = ok (desc, set_up m.desc self)
apply_move_shard_event ingest m desc self = do
  state ← must_move_shard_state self
  let updated = is_prepare state.step || self.move_shard_state_updated
  let step = if is_prepare state.step then moving else state.step
  let next = record state { step = step; last_moved_key = some m.last_ingested_key }
  ok (desc, record (with_state next self) { move_shard_state_updated = updated })
apply_move_shard_event commit_event m desc self = do
  state ← must_move_shard_state self
  ok (desc, with_step moved state self)
apply_move_shard_event apply_event m desc self = do
  state ← must_move_shard_state self
  d ← ok_or state.move_shard panicked
  result ← apply_moving_shard d desc
  ok (
    result.0,
    with_step finished state (record self {
      move_out_shards = moved_out result.1 self.move_out_shards;
      desc_updated = true;
    }),
  )
apply_move_shard_event abort_event m desc self = do
  state ← must_move_shard_state self
  ok (desc, with_step aborted_step state self)

-- A shard that exists already is a `todo!`.
abbrev pub add_new :
    Option ShardDesc
    → ShardDesc
    → GroupDesc
    → GroupStateMachine
    → Result (GroupDesc × GroupStateMachine)
add_new (some existed) shard desc self = err panicked
add_new none shard desc self = ok (
  record desc { epoch = apply_shard_delta desc.epoch; shards = desc.shards ++ (shard ∷ []) },
  record self { desc_updated = true },
)

-- The parts of a `SyncOp`, over the descriptor that they change.
unfoldable pub apply_add_shard :
    Option (Option ShardDesc)
    → GroupDesc × GroupStateMachine
    → Result (GroupDesc × GroupStateMachine)
apply_add_shard (some (some shard)) (desc, self) =
    add_new (find_shard shard.id desc.shards) shard desc self
apply_add_shard _ state = ok state

unfoldable pub apply_move_shard :
    Option MoveShard → GroupDesc × GroupStateMachine → Result (GroupDesc × GroupStateMachine)
unfolding apply_move_shard_event
apply_move_shard none state = ok state
apply_move_shard (some m) (desc, self) = apply_move_shard_event m.event m desc self

abbrev pub changed : Result GroupDesc → GroupStateMachine → Result (GroupDesc × GroupStateMachine)
changed result self = result >>= λ desc. ok (desc, record self { desc_updated = true })

unfoldable pub apply_split :
    Option SplitShard → GroupDesc × GroupStateMachine → Result (GroupDesc × GroupStateMachine)
apply_split none state = ok state
apply_split (some split) (desc, self) = changed (apply_split_shard split desc) self

unfoldable pub apply_merge :
    Option MergeShard → GroupDesc × GroupStateMachine → Result (GroupDesc × GroupStateMachine)
apply_merge none state = ok state
apply_merge (some merge) (desc, self) = changed (apply_merge_shard merge desc) self

unfoldable pub apply_op : Option SyncOp → GroupStateMachine → Result GroupStateMachine
unfolding apply_add_shard apply_move_shard apply_split apply_merge descriptor
apply_op none self = ok self
apply_op (some op) self = do
  added ← apply_add_shard op.add_shard (descriptor self, self)
  arrived ← apply_move_shard op.move_shard added
  split ← apply_split op.split_shard arrived
  merged ← apply_merge op.merge_shard split
  ok (with_descriptor merged.0 merged.1)

abbrev pub plug_batch : Option Bytes → GroupStateMachine → GroupStateMachine
plug_batch none self = self
plug_batch (some batch) self = record self {
  plugged_write_batches = self.plugged_write_batches ++ (batch ∷ []);
}

unfoldable pub apply_proposal : EvalResult → GroupStateMachine → Result GroupStateMachine
unfolding apply_op
apply_proposal eval_result self = apply_op eval_result.op (plug_batch eval_result.batch self)

unfoldable pub apply_entry : ApplyEntry → GroupStateMachine → Result GroupStateMachine
unfolding apply_change_replicas apply_proposal
apply_entry empty self = ok self
apply_entry (config_change changes) self = apply_change_replicas changes self
apply_entry (proposal eval_result) self = apply_proposal eval_result self

-- `StateMachine::apply`
unfoldable pub apply : ℕ → ℕ → ApplyEntry → GroupStateMachine → Result GroupStateMachine
unfolding apply_entry
apply index term entry self = do
  next ← apply_entry entry self
  ok (record next {
    plugged_write_states = record (next.plugged_write_states) {
      apply_state = some (record { index = index; term = term });
    };
  })

abbrev pub is_over : MoveShardStep → Bool
is_over finished = true
is_over aborted_step = true
is_over _ = false

abbrev pub kept_state : Option MoveShardState → Option MoveShardState → Option MoveShardState
kept_state none old = old
kept_state (some state) old = if is_over state.step then none else some state

-- `GroupEngine::apply_core_states`: a move that is over is not kept. With nothing plugged it changes nothing.
unfoldable pub apply_core_states :
    Option GroupDesc → Option MoveShardState → EngineCore → EngineCore
apply_core_states desc state core = record {
  group_desc = unwrap_or desc core.group_desc;
  move_shard_state = kept_state state core.move_shard_state;
}

abbrev pub no_write_states : WriteStates
no_write_states = record { apply_state = none; descriptor = none; move_shard_state = none }

-- `GroupEngine::group_commit` of what is plugged, and `trigger_updation_watchers`, which takes the batches and the
-- shards that moved out.
unfoldable pub group_commit : GroupStateMachine → GroupStateMachine
unfolding apply_core_states
group_commit self = record self {
  engine =
      apply_core_states self.plugged_write_states.descriptor
        self.plugged_write_states.move_shard_state self.engine;
  plugged_write_states = no_write_states;
  plugged_write_batches = [];
  move_out_shards = [];
}

abbrev pub tell_descriptor : Bool → GroupDesc → Observer → Observer
tell_descriptor true desc observer = record observer { descriptor = some desc }
tell_descriptor false desc observer = observer

abbrev pub tell_term : Bool → ℕ → Observer → Observer
tell_term true term observer = record observer { term = some term }
tell_term false term observer = observer

abbrev pub tell_state : Bool → Option MoveShardState → Observer → Observer
tell_state true state observer = record observer { move_shard_state = some state }
tell_state false state observer = observer

unfoldable pub flush_updated_events : ℕ → GroupStateMachine → GroupStateMachine
flush_updated_events term self =
    let newer = ltb self.last_applied_term term in
    record self {
      desc_updated = false;
      move_shard_state_updated = false;
      last_applied_term = if newer then term else self.last_applied_term;
      observer = tell_state self.move_shard_state_updated self.engine.move_shard_state (
          tell_term newer term
            (tell_descriptor self.desc_updated self.engine.group_desc self.observer));
    }

unfoldable pub start_plug : GroupStateMachine → Result (Unit {0})
start_plug self = elim (self.plugged_write_batches) [
  | batch ∷ batches ↦ err panicked
  | [] ↦ elim (self.plugged_write_states.apply_state) [ none ↦ ok tt | some state ↦ err panicked ]
]

abbrev pub finish :
    Option ApplyState → Result (Unit {0}) → GroupStateMachine → Result GroupStateMachine
finish none written self = err panicked
finish (some state) written self =
    written >>= λ w. ok (flush_updated_events state.term (group_commit self))

-- `written` is what rocksdb returns for the write.
unfoldable pub finish_plug : Result (Unit {0}) → GroupStateMachine → Result GroupStateMachine
unfolding group_commit flush_updated_events
finish_plug written self = finish self.plugged_write_states.apply_state written self

-- How the applier drives the machine: entries with their index and term, between the plugs. Its own check that
-- the indexes follow one another is left out.
unfoldable pub apply_all :
    List (ℕ × (ℕ × ApplyEntry)) → GroupStateMachine → Result GroupStateMachine
unfolding apply
apply_all [] self = ok self
apply_all ((index, (term, entry)) ∷ entries) self = do
  next ← apply index term entry self
  apply_all entries next

unfoldable pub apply_plugged :
    Result (Unit {0}) → List (ℕ × (ℕ × ApplyEntry)) → GroupStateMachine → Result GroupStateMachine
unfolding start_plug apply_all finish_plug
apply_plugged written entries self = do
  started ← start_plug self
  next ← apply_all entries self
  finish_plug written next
