-- ===== src/Eval/Write.antt =====
-- server/src/replica/eval/cmd_write.rs and cmd_ingest.rs: the writes of internal shards, and the versions
-- that a moving shard brings. `now` is `timestamp_nanos`, by the number of calls before.
pub mod Newest
pub mod Batch
pub mod Ingest
use sekv.Prelude.{
  ℕ, suc, ◌+◌, ◌%◌, Bool, true, false, ◌&&◌, Option, none, some, List, [], ◌∷◌, ◌++◌, map, ltb,
  ◌==◌, if◌then◌else◌, length,
}
use sekv.Prelude.Bytes.{Bytes}
use sekv.Rock.Num.{u64_mod, wrapping_add}
use sekv.Api.{
  Value, ValueSet, WriteCondition, PutType, put_none, add_i64, nop, PutRequest, DeleteRequest,
  ExecCtx, ShardWriteRequest, ShardWriteResponse, WriteResponse,
}
use sekv.Result.{Result, ok, err, panicked, cas_failed, ◌>>=◌, ◌>>◌}
use sekv.Engine.Group
use sekv.Engine.Group.{GroupEngine, WriteBatch}
use sekv.Eval.Cas.{eval_conditions}
use sekv.Eval.Forward.{forward_or}

-- `prev_value.map(|v| v.version).unwrap_or_default()`
abbrev pub prev_version : Option Value → ℕ
prev_version none = 0
prev_version (some v) = v.version

-- `std::cmp::max(prev_version + 1, next_version())`, on 64 bit words
unfoldable pub write_version : ℕ → Option Value → ℕ
write_version time prev_value =
    let next = wrapping_add (prev_version prev_value) 1 in if ltb next time then time else next

-- `return Err(Error::CasFailed(idx, cond_idx, prev_value))` where a condition fails
unfoldable pub check : ℕ → Option Value → List WriteCondition → Result (Unit {0})
check idx prev_value conditions = do
  failed ← eval_conditions prev_value conditions
  elim failed [ none ↦ ok tt | some cond_idx ↦ err (cas_failed idx cond_idx prev_value) ]

-- `panic!` for any type but the plain put
abbrev pub put_only : PutType → Result (Unit {0})
put_only put_none = ok tt
put_only _ = err panicked

abbrev pub response : Bool → Option Value → WriteResponse
response take_prev_value prev_value = record {
  prev_value = if take_prev_value then prev_value else none;
}

module _ (engine : GroupEngine) (now : ℕ → ℕ) (shard_id : ℕ) where
  unfoldable pub write_deletes :
      ℕ → List DeleteRequest → WriteBatch → Result (WriteBatch × List WriteResponse)
  write_deletes idx [] wb = ok (wb, [])
  write_deletes idx (del ∷ deletes) wb = do
    prev_value ← Group.get engine shard_id del.key
    check idx prev_value del.conditions
    wb' ← Group.tombstone engine wb shard_id del.key (write_version (now idx) prev_value)
    rest ← write_deletes (idx + 1) deletes wb'
    ok (rest.0, response del.take_prev_value prev_value ∷ rest.1)

  -- Another type than `put_none` panics.
  unfoldable pub write_puts :
      ℕ → List PutRequest → WriteBatch → Result (WriteBatch × List WriteResponse)
  write_puts idx [] wb = ok (wb, [])
  write_puts idx (put ∷ puts) wb = do
    put_only put.put_type
    prev_value ← Group.get engine shard_id put.key
    check idx prev_value put.conditions
    wb' ← Group.put engine wb shard_id put.key put.value (write_version (now idx) prev_value)
    rest ← write_puts (idx + 1) puts wb'
    ok (rest.0, response put.take_prev_value prev_value ∷ rest.1)

abbrev pub keys_of : ShardWriteRequest → List Bytes
keys_of req = map (λ d. DeleteRequest.key d) req.deletes ++ map (λ p. PutRequest.key p) req.puts

abbrev pub nothing : ShardWriteRequest → Bool
nothing req = length req.deletes == 0 && length req.puts == 0

unfoldable pub batch_write :
    ExecCtx
    → GroupEngine
    → (ℕ → ℕ)
    → ShardWriteRequest
    → Result (Option WriteBatch × ShardWriteResponse)
unfolding write_deletes write_puts
batch_write exec_ctx engine now req =
    if nothing req
    then ok (none, record { deletes = []; puts = [] })
    else forward_or exec_ctx engine req.shard_id (keys_of req) (do
      d ← write_deletes engine now req.shard_id 0 req.deletes []
      p ← write_puts engine now req.shard_id (length req.deletes) req.puts d.0
      ok (some p.0, record { deletes = d.1; puts = p.1 }))

-- the `for value in &value_set.values` loop
unfoldable pub write_values : GroupEngine → ℕ → Bytes → List Value → WriteBatch → Result WriteBatch
unfolding Group.put Group.tombstone
write_values engine shard_id key [] wb = ok wb
write_values engine shard_id key (value ∷ values) wb = do
  wb' ← elim value.content [
    | some content ↦ Group.put engine wb shard_id key content value.version
    | none ↦ Group.tombstone engine wb shard_id key value.version
  ]
  write_values engine shard_id key values wb'

abbrev is_empty_set : List Value → Bool
is_empty_set [] = true
is_empty_set (v ∷ values) = false

unfoldable pub ingest_value_set : GroupEngine → ℕ → ValueSet → Result (Option WriteBatch)
unfolding write_values
ingest_value_set engine shard_id value_set = if is_empty_set value_set.values then ok none else (do
  existing ← Group.get engine shard_id value_set.user_key
  elim existing [
    | some v ↦ ok none
    | none ↦ do
      wb ← write_values engine shard_id value_set.user_key value_set.values []
      ok (some wb)
  ])
