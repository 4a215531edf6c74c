-- ===== src/Examples/Router.antt =====
-- A shard that moved from group 1 to group 2, whose descriptor came first.
use sekv.Prelude.{ℕ, ◌≡◌, refl, none, some, List, [], ◌∷◌, arith}
use sekv.Api.{ShardDesc}
use sekv.Client.Router.{
  RouterGroupState, UpdateEvent, group_event, find_group_by_shard, apply_update_event,
  apply_group_descriptor, apply_shards, apply_shard,
}
use sekv.Client.Router.Shards.{run, descs_of}
use sekv.Client.Router.Found.{Holds, find_group_by_shard-Holds}

abbrev shard : ShardDesc
shard = record { id = 1; table_id = 1; range = none }

abbrev desc : ℕ → ℕ → List ShardDesc → UpdateEvent
desc id epoch shards =
    group_event (record { id = id; epoch = epoch; shards = shards; replicas = [] })

abbrev events : List UpdateEvent
events =
    desc 1 4294967297 [] ∷ desc 2 4294967297 (shard ∷ []) ∷ desc 2 1 [] ∷ desc 1 1 (shard ∷ []) ∷ []

abbrev group : RouterGroupState
group = record { id = 2; epoch = 4294967297; leader_state = none; replicas = λ j. none }

finds : find_group_by_shard (run events) 1 ≡ some group
unfolding find_group_by_shard run apply_update_event apply_group_descriptor apply_shards apply_shard
finds = refl

find_group_by_shard-Holds_example : Holds 1 (descs_of events) group
find_group_by_shard-Holds_example =
    find_group_by_shard-Holds events 1 group
      (
        ((λ e. absurd (omega arith)), ((λ e. absurd (omega arith)), ((λ e. omega arith), tt))),
        (
          ((λ e. omega arith), ((λ e. absurd (omega arith)), tt)),
          (((λ e. absurd (omega arith)), tt), (tt, tt)),
        ),
      )
      finds
