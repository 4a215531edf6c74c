-- ===== src/Client/Router/Shards.antt =====
-- Where the client's router finds a shard, by the descriptors of groups that it was sent: client/src/rpc/router.rs.
use sekv.Prelude.{
  ℕ, ◌==◌, ◌≡◌, refl, ap, ◌∙◌, sym, if◌then◌else◌, Bool, true, false, ◌||◌, Option, none, some,
  List, [], ◌∷◌, arith, inl, inr, Bool-cases, ==_iff,
}
use mathlib.Core.Path.{subst}
use mathlib.Core.Option
use sekv.Api.{ShardDesc}
use sekv.Api.Group.{GroupDesc}
use sekv.Client.Router.{
  State, RouterGroupState, GroupState, UpdateEvent, node_event, group_event, group_state_event,
  database_event, table_event, apply_shard, apply_shards, apply_group_descriptor, update_leader,
  apply_update_event, newer_entry, insert, leader_of, by_id,
}

-- `State::default`
abbrev pub initial : State
initial = record {
  node_id_lookup = λ j. none;
  db_id_lookup = λ j. none;
  db_name_lookup = λ j. none;
  co_id_lookup = λ j. none;
  co_name_lookup = λ d j. none;
  co_shards_lookup = λ j. none;
  shard_group_lookup = λ j. none;
  group_id_lookup = λ j. none;
  cached_group_states = λ j. none;
}

-- The state after the events, of which the last one stands first.
unfoldable pub run : List UpdateEvent → State
run [] = initial
run (event ∷ events) = apply_update_event event (run events)

abbrev pub descs_of : List UpdateEvent → List GroupDesc
descs_of [] = []
descs_of (group_event desc ∷ events) = desc ∷ descs_of events
descs_of (node_event desc ∷ events) = descs_of events
descs_of (group_state_event state ∷ events) = descs_of events
descs_of (database_event desc ∷ events) = descs_of events
descs_of (table_event desc ∷ events) = descs_of events

abbrev pub has_shard : ℕ → List ShardDesc → Bool
has_shard id [] = false
has_shard id (shard ∷ shards) = (shard.id == id) || has_shard id shards

-- The group and the epoch of the newest descriptor that has the shard; of two with one epoch, the earlier one.
abbrev pub newest : ℕ → List GroupDesc → Option (ℕ × ℕ)
newest id [] = none
newest id (desc ∷ descs) =
    if has_shard id desc.shards
    then newer_entry desc.id desc.epoch (newest id descs)
    else newest id descs

-- The last descriptor of a group.
abbrev pub latest : ℕ → List GroupDesc → Option GroupDesc
latest id [] = none
latest id (desc ∷ descs) = if desc.id == id then some desc else latest id descs

-- A second entry of one group and epoch changes nothing.
newer_entry-twice :
    (id epoch : ℕ) (entry : Option (ℕ × ℕ))
    → newer_entry id epoch (newer_entry id epoch entry) ≡ newer_entry id epoch entry
newer_entry-twice id epoch none = ground arith
newer_entry-twice id epoch (some (i, e)) = ground arith

apply_shard-lookup :
    (id epoch : ℕ) (shard : ShardDesc) (state : State) (j : ℕ)
    → (apply_shard id epoch shard state).shard_group_lookup j ≡ (
        if shard.id == j
        then newer_entry id epoch (state.shard_group_lookup j)
        else state.shard_group_lookup j)
unfolding apply_shard
apply_shard-lookup id epoch shard state j = elim (Bool-cases (shard.id == j)) [
  | inl same ↦
      let e : shard.id ≡ j = (==_iff _ j).0 same in
      subst
        (λ i. (apply_shard id epoch shard state).shard_group_lookup i ≡ (
          if shard.id == i
          then newer_entry id epoch (state.shard_group_lookup i)
          else state.shard_group_lookup i))
        e (rw ((==_iff shard.id shard.id).1 refl) refl)
  | inr other ↦ let other' : (j == shard.id) ≡ false = ground arith in rw (other, other') refl
]

apply_shards-lookup :
    (id epoch : ℕ) (shards : List ShardDesc) (state : State) (j : ℕ)
    → (apply_shards id epoch shards state).shard_group_lookup j ≡ (
        if has_shard j shards
        then newer_entry id epoch (state.shard_group_lookup j)
        else state.shard_group_lookup j)
unfolding apply_shards
apply_shards-lookup id epoch [] state j = refl
apply_shards-lookup id epoch (shard ∷ shards) state j =
    apply_shards-lookup id epoch shards (apply_shard id epoch shard state) j
    ∙ ap (λ entry. if has_shard j shards then newer_entry id epoch entry else entry)
        (apply_shard-lookup id epoch shard state j)
    ∙ joined (shard.id == j) (has_shard j shards) (state.shard_group_lookup j)
  where
    joined :
        (here there : Bool) (entry : Option (ℕ × ℕ))
        → (if there
            then newer_entry id epoch (if here then newer_entry id epoch entry else entry)
            else (if here then newer_entry id epoch entry else entry))
          ≡ (if here || there then newer_entry id epoch entry else entry)
    joined true true entry = newer_entry-twice id epoch entry
    joined true false entry = refl
    joined false true entry = refl
    joined false false entry = refl

apply_shards-groups :
    (id epoch : ℕ) (shards : List ShardDesc) (state : State)
    → (apply_shards id epoch shards state).group_id_lookup ≡ state.group_id_lookup
unfolding apply_shards apply_shard
apply_shards-groups id epoch [] state = refl
apply_shards-groups id epoch (shard ∷ shards) state =
    apply_shards-groups id epoch shards (apply_shard id epoch shard state)

-- What the router knows of a group is its last descriptor's id and epoch.
abbrev pub seen_group : Option RouterGroupState → Option (ℕ × ℕ)
seen_group = Option.map (λ group. (RouterGroupState.id group, RouterGroupState.epoch group))

abbrev pub seen_desc : Option GroupDesc → Option (ℕ × ℕ)
seen_desc = Option.map (λ desc. (GroupDesc.id desc, GroupDesc.epoch desc))

abbrev pub Sees : List GroupDesc → State → Type 0
Sees descs state =
    ((j : ℕ) → state.shard_group_lookup j ≡ newest j descs)
    × ((j : ℕ) → seen_group (state.group_id_lookup j) ≡ seen_desc (latest j descs))

apply_group_descriptor-Sees :
    (desc : GroupDesc) (descs : List GroupDesc) (state : State)
    → Sees descs state
    → Sees (desc ∷ descs) (apply_group_descriptor desc state)
unfolding apply_group_descriptor
apply_group_descriptor-Sees desc descs state s = (
  λ j.
      apply_shards-lookup desc.id desc.epoch desc.shards _ j
      ∙ ap
          (λ entry. if has_shard j desc.shards then newer_entry desc.id desc.epoch entry else entry)
          (s.0 j),
  λ j.
      ap (λ m. seen_group (m j)) (apply_shards-groups desc.id desc.epoch desc.shards _)
      ∙ by_group j,
)
  where
    by_group :
        (j : ℕ)
        → seen_group (
            insert desc.id
              (record {
                id = desc.id;
                epoch = desc.epoch;
                leader_state =
                    leader_of (state.group_id_lookup desc.id) (state.cached_group_states desc.id);
                replicas = by_id desc.replicas (λ j. none);
              })
              state.group_id_lookup
              j)
          ≡ seen_desc (latest j (desc ∷ descs))
    by_group j = elim (Bool-cases (desc.id == j)) [
      | inl same ↦ let same' : (j == desc.id) ≡ true = ground arith in rw (same, same') refl
      | inr other ↦ let other' : (j == desc.id) ≡ false = ground arith in rw (other, other') (s.1 j)
    ]

update_leader-Sees :
    (group_state : GroupState) (descs : List GroupDesc) (state : State)
    → Sees descs state
    → Sees descs (update_leader group_state (state.group_id_lookup group_state.group_id) state)
update_leader-Sees group_state descs state s =
    by_known (state.group_id_lookup group_state.group_id) refl
  where
    by_known :
        (known : Option RouterGroupState)
        → state.group_id_lookup group_state.group_id ≡ known
        → Sees descs (update_leader group_state known state)
    by_known none e = s
    by_known (some group) e = (
      s.0,
      λ j. elim (Bool-cases (j == group_state.group_id)) [
        | inl same ↦
            let at : j ≡ group_state.group_id = (==_iff j _).0 same in
            rw same (sym (ap seen_group (ap state.group_id_lookup at ∙ e)) ∙ s.1 j)
        | inr other ↦ rw other (s.1 j)
      ],
    )

-- After any events the router knows the newest descriptor of each shard, and the last one of each group.
pub run-Sees : (events : List UpdateEvent) → Sees (descs_of events) (run events)
unfolding run apply_update_event
run-Sees [] = (λ j. refl, λ j. refl)
run-Sees (group_event desc ∷ events) =
    apply_group_descriptor-Sees desc (descs_of events) (run events) (run-Sees events)
run-Sees (group_state_event state ∷ events) =
    update_leader-Sees state (descs_of events) (run events) (run-Sees events)
run-Sees (node_event desc ∷ events) = run-Sees events
run-Sees (database_event desc ∷ events) = run-Sees events
run-Sees (table_event desc ∷ events) = run-Sees events
