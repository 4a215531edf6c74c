-- ===== src/Client/Router.antt =====
-- `State` of client/src/rpc/router.rs, what the client knows of the cluster, under the events that the root sends.
-- A hash map is a function. The root's stream, the lock round the state and the log's texts are left out, as is
-- `total_nodes`, which counts a map's keys.
pub mod Shards
pub mod Found
use sekv.Prelude.{
  ℕ, ◌==◌, ◌&&◌, not, ltb, leb, if◌then◌else◌, Bool, true, false, Option, none, some, List, [], ◌∷◌,
  ◌++◌,
}
use sekv.Prelude.Bytes.{Bytes, eq_bytes}
use sekv.Api.{ShardDesc}
use sekv.Api.Group.{GroupDesc, ReplicaDesc, ReplicaState, RaftRole, leader, retain}
use sekv.Schema.Shard.{belong_to}
use sekv.Client.Error.{ClientError, ClientResult, ok, err, ◌>>=◌, ok_or, not_found, panicked}

pub record NodeDesc : Type 0 where
  pub id : ℕ
  pub addr : Bytes

pub record DatabaseDesc : Type 0 where
  pub id : ℕ
  pub name : Bytes

pub record TableDesc : Type 0 where
  pub id : ℕ
  pub db : ℕ
  pub name : Bytes

pub record GroupState : Type 0 where
  pub group_id : ℕ
  pub leader_id : Option ℕ
  pub replicas : List ReplicaState

pub record RouterGroupState : Type 0 where
  pub id : ℕ
  pub epoch : ℕ
  pub leader_state : Option (ℕ × ℕ)
  pub replicas : ℕ → Option ReplicaDesc

abbrev pub Map : Type 0 → Type 0
Map V = ℕ → Option V

abbrev pub insert : {V : Type 0} → ℕ → V → Map V → Map V
insert k v m j = if j == k then some v else m j

abbrev pub erase : {V : Type 0} → ℕ → Map V → Map V
erase k m j = if j == k then none else m j

-- The names of databases, and the names of tables in their databases.
abbrev pub insert_name : Bytes → ℕ → (Bytes → Option ℕ) → Bytes → Option ℕ
insert_name k v m j = if eq_bytes j k then some v else m j

abbrev pub erase_name : Bytes → (Bytes → Option ℕ) → Bytes → Option ℕ
erase_name k m j = if eq_bytes j k then none else m j

abbrev pub insert_table : ℕ → Bytes → ℕ → (ℕ → Bytes → Option ℕ) → ℕ → Bytes → Option ℕ
insert_table db k v m d j = if d == db && eq_bytes j k then some v else m d j

abbrev pub erase_table : ℕ → Bytes → (ℕ → Bytes → Option ℕ) → ℕ → Bytes → Option ℕ
erase_table db k m d j = if d == db && eq_bytes j k then none else m d j

pub record State : Type 0 where
  pub node_id_lookup : Map Bytes
  pub db_id_lookup : Map DatabaseDesc
  pub db_name_lookup : Bytes → Option ℕ
  pub co_id_lookup : Map TableDesc
  pub co_name_lookup : ℕ → Bytes → Option ℕ
  pub co_shards_lookup : Map (List ShardDesc)
  pub shard_group_lookup : Map (ℕ × ℕ)
  pub group_id_lookup : Map RouterGroupState
  pub cached_group_states : Map GroupState

pub data UpdateEvent : Type 0 where
  node_event : NodeDesc → UpdateEvent
  group_event : GroupDesc → UpdateEvent
  group_state_event : GroupState → UpdateEvent
  database_event : DatabaseDesc → UpdateEvent
  table_event : TableDesc → UpdateEvent

-- The deletion of a group or of its state is a `todo!`.
pub data DeleteEvent : Type 0 where
  delete_node delete_group delete_group_state delete_database delete_table : ℕ → DeleteEvent

-- A group whose epoch is newer does not have the shard any more.
abbrev pub not_newer : ℕ → Option RouterGroupState → Option RouterGroupState
not_newer epoch none = none
not_newer epoch (some group_state) = if ltb epoch group_state.epoch then none else some group_state

abbrev pub group_of : State → Option (ℕ × ℕ) → Option RouterGroupState
group_of state none = none
group_of state (some (group_id, epoch)) = not_newer epoch (state.group_id_lookup group_id)

-- `State::find_group_by_shard`
unfoldable pub find_group_by_shard : State → ℕ → Option RouterGroupState
find_group_by_shard state shard_id = group_of state (state.shard_group_lookup shard_id)

abbrev pub or_next :
    Option RouterGroupState
    → ShardDesc
    → ClientResult (RouterGroupState × ShardDesc)
    → ClientResult (RouterGroupState × ShardDesc)
or_next none shard rest = rest
or_next (some group_state) shard rest = ok (group_state, shard)

unfoldable pub find_in :
    State → Bytes → List ShardDesc → ClientResult (RouterGroupState × ShardDesc)
unfolding find_group_by_shard
find_in state user_key [] = err not_found
find_in state user_key (shard ∷ shards) =
    let rest = find_in state user_key shards in
    if belong_to shard user_key
    then or_next (find_group_by_shard state shard.id) shard rest
    else rest

-- `Router::find_shard`
unfoldable pub find_shard : State → ℕ → Bytes → ClientResult (RouterGroupState × ShardDesc)
unfolding find_in
find_shard state table_id user_key =
    ok_or (state.co_shards_lookup table_id) not_found >>= find_in state user_key

unfoldable pub find_group : State → ℕ → ClientResult RouterGroupState
find_group state id = ok_or (state.group_id_lookup id) not_found

unfoldable pub find_node_addr : State → ℕ → ClientResult Bytes
find_node_addr state id = ok_or (state.node_id_lookup id) not_found

-- The last of the leaders with the greatest term, which a stable sort by term puts last.
abbrev pub later : ℕ × ℕ → Option (ℕ × ℕ) → Option (ℕ × ℕ)
later r none = some r
later r (some best) = if ltb best.1 r.1 then some r else some best

abbrev pub is_leader : RaftRole → Bool
is_leader leader = true
is_leader _ = false

unfoldable pub last_leader : List ReplicaState → Option (ℕ × ℕ)
last_leader [] = none
last_leader (r ∷ replicas) =
    if is_leader r.role
    then later (r.replica_id, r.term) (last_leader replicas)
    else last_leader replicas

unfoldable pub leader_state : GroupState → Option (ℕ × ℕ)
unfolding last_leader
leader_state group_state = elim (group_state.leader_id) [
  | none ↦ none
  | some id ↦ last_leader group_state.replicas
]

-- The group that a shard is in, by the epoch of the descriptor that says so.
abbrev pub newer_entry : ℕ → ℕ → Option (ℕ × ℕ) → Option (ℕ × ℕ)
newer_entry id epoch none = some (id, epoch)
newer_entry id epoch (some (entry_id, entry_epoch)) =
    if ltb entry_epoch epoch then some (id, epoch) else some (entry_id, entry_epoch)

abbrev pub replaced_shard : ShardDesc → Option (List ShardDesc) → List ShardDesc
replaced_shard shard none = shard ∷ []
replaced_shard shard (some shards) = retain (λ s. not (s.id == shard.id)) shards ++ (shard ∷ [])

unfoldable pub apply_shard : ℕ → ℕ → ShardDesc → State → State
apply_shard id epoch shard state = record state {
  shard_group_lookup = λ j.
      if j == shard.id
      then newer_entry id epoch (state.shard_group_lookup shard.id)
      else state.shard_group_lookup j;
  co_shards_lookup =
      insert shard.table_id (replaced_shard shard (state.co_shards_lookup shard.table_id))
        state.co_shards_lookup;
}

unfoldable pub apply_shards : ℕ → ℕ → List ShardDesc → State → State
unfolding apply_shard
apply_shards id epoch [] state = state
apply_shards id epoch (shard ∷ shards) state =
    apply_shards id epoch shards (apply_shard id epoch shard state)

-- `collect` of the replicas by their ids, where a later one replaces an earlier one
abbrev pub by_id : List ReplicaDesc → Map ReplicaDesc → Map ReplicaDesc
by_id [] m = m
by_id (r ∷ replicas) m = by_id replicas (insert r.id r m)

-- The leader of a group that is known already, or the one of a state that came before its descriptor.
abbrev pub leader_of : Option RouterGroupState → Option GroupState → Option (ℕ × ℕ)
leader_of (some old_state) cached = old_state.leader_state
leader_of none (some cached_state) = leader_state cached_state
leader_of none none = none

abbrev pub without_cached : Option RouterGroupState → ℕ → Map GroupState → Map GroupState
without_cached (some old_state) id cached = cached
without_cached none id cached = erase id cached

unfoldable pub apply_group_descriptor : GroupDesc → State → State
unfolding apply_shards leader_state
apply_group_descriptor group_desc state =
    let id = group_desc.id in
    let old_state = state.group_id_lookup id in
    let group_state : RouterGroupState = record {
      id = id;
      epoch = group_desc.epoch;
      leader_state = leader_of old_state (state.cached_group_states id);
      replicas = by_id group_desc.replicas (λ j. none);
    } in
    apply_shards id group_desc.epoch group_desc.shards (record state {
      cached_group_states = without_cached old_state id state.cached_group_states;
      group_id_lookup = insert id group_state state.group_id_lookup;
    })

abbrev pub update_leader : GroupState → Option RouterGroupState → State → State
update_leader group_state (some group) state = record state {
  group_id_lookup =
      insert group_state.group_id (record group { leader_state = leader_state group_state })
        state.group_id_lookup;
}
update_leader group_state none state = record state {
  cached_group_states = insert group_state.group_id group_state state.cached_group_states;
}

-- A database that is renamed loses the new name, which it is given again; a table loses its old one.
abbrev pub forget_database : Option DatabaseDesc → Bytes → (Bytes → Option ℕ) → Bytes → Option ℕ
forget_database none name m = m
forget_database (some old_desc) name m =
    if eq_bytes old_desc.name name then m else erase_name name m

abbrev pub forget_table :
    Option TableDesc → ℕ → Bytes → (ℕ → Bytes → Option ℕ) → ℕ → Bytes → Option ℕ
forget_table none db name m = m
forget_table (some old_desc) db name m =
    if eq_bytes old_desc.name name then m else erase_table db old_desc.name m

unfoldable pub apply_update_event : UpdateEvent → State → State
unfolding apply_group_descriptor leader_state
apply_update_event (node_event node_desc) state = record state {
  node_id_lookup = insert node_desc.id node_desc.addr state.node_id_lookup;
}
apply_update_event (group_event group_desc) state = apply_group_descriptor group_desc state
apply_update_event (group_state_event group_state) state =
    update_leader group_state (state.group_id_lookup group_state.group_id) state
apply_update_event (database_event db_desc) state = record state {
  db_id_lookup = insert db_desc.id db_desc state.db_id_lookup;
  db_name_lookup =
      insert_name db_desc.name db_desc.id
        (forget_database (state.db_id_lookup db_desc.id) db_desc.name state.db_name_lookup);
}
apply_update_event (table_event co_desc) state = record state {
  co_id_lookup = insert co_desc.id co_desc state.co_id_lookup;
  co_name_lookup =
      insert_table co_desc.db co_desc.name co_desc.id
        (forget_table (state.co_id_lookup co_desc.id) co_desc.db co_desc.name state.co_name_lookup);
}

abbrev pub forget_db : Option DatabaseDesc → (Bytes → Option ℕ) → Bytes → Option ℕ
forget_db none m = m
forget_db (some desc) m = erase_name desc.name m

abbrev pub forget_co : Option TableDesc → (ℕ → Bytes → Option ℕ) → ℕ → Bytes → Option ℕ
forget_co none m = m
forget_co (some desc) m = erase_table desc.db desc.name m

unfoldable pub apply_delete_event : DeleteEvent → State → ClientResult State
apply_delete_event (delete_node node) state =
    ok (record state { node_id_lookup = erase node state.node_id_lookup })
apply_delete_event (delete_group id) state = err panicked
apply_delete_event (delete_group_state id) state = err panicked
apply_delete_event (delete_database db) state = ok (record state {
  db_id_lookup = erase db state.db_id_lookup;
  db_name_lookup = forget_db (state.db_id_lookup db) state.db_name_lookup;
})
apply_delete_event (delete_table co) state = ok (record state {
  co_id_lookup = erase co state.co_id_lookup;
  co_name_lookup = forget_co (state.co_id_lookup co) state.co_name_lookup;
})
