-- ===== src/Eval/Forward.antt =====
-- The check that each command of server/src/replica/eval begins with: a request for a shard that moves
-- out of the group is forwarded, with all versions of its keys.
use sekv.Prelude.{ℕ, Option, none, some, List, [], ◌∷◌, ◌==◌, if◌then◌else◌}
use sekv.Prelude.Bytes.{Bytes}
use sekv.Api.{ValueSet, ExecCtx}
use sekv.Result.{Result, ok, err, panicked, forward, ◌>>=◌, ok_or}
use sekv.Engine.Group.{GroupEngine, get_all_versions}

-- `desc.shard_desc.as_ref().unwrap()` panics where the descriptor is missing.
unfoldable pub moving_to : ExecCtx → ℕ → Result (Option ℕ)
moving_to exec_ctx shard_id = elim exec_ctx.move_shard_desc [
  | none ↦ ok none
  | some desc ↦ do
    shard ← ok_or desc.shard_desc panicked
    ok (if shard.id == shard_id then some desc.dest_group_id else none)
]

unfoldable pub payloads_of : GroupEngine → ℕ → List Bytes → Result (List ValueSet)
payloads_of engine shard_id [] = ok []
payloads_of engine shard_id (key ∷ keys) =
    let rest = payloads_of engine shard_id keys in
    do payload ← get_all_versions engine shard_id key; payloads ← rest; ok (payload ∷ payloads)

-- Forwards where the shard moves, and goes on with `continue` where it does not.
unfoldable pub forward_or {ℓ} :
    {A : Type ℓ} → ExecCtx → GroupEngine → ℕ → List Bytes → Result A → Result A
unfolding moving_to payloads_of
forward_or exec_ctx engine shard_id keys continue = do
  moving ← moving_to exec_ctx shard_id
  elim moving [
    | none ↦ continue
    | some dest_group_id ↦ do
      payloads ← payloads_of engine shard_id keys
      err (
          forward
            (record { shard_id = shard_id; dest_group_id = dest_group_id; payloads = payloads }))
  ]
