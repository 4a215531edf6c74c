-- ===== src/Eval/Txn.antt =====
-- server/src/replica/eval/cmd_txn.rs: the intents of a transaction are written, committed and cleared.
-- `resolve` is `DeferSignalLatchGuard::resolve_txn` for the request's shard and key: what the group
-- engine holds when it returns. The guard's `state` is what `signal_all` sets.

pub mod Reads
pub mod Commit
pub mod Puts
pub mod Write
pub mod Rounds
pub mod AfterCommit
use sekv.Prelude.{
  ℕ, zero, suc, ◌+◌, Bool, true, false, ◌&&◌, not, Option, none, some, List, [], ◌∷◌, ltb, ◌==◌,
  if◌then◌else◌,
}
use sekv.Prelude.Bytes.{Bytes, to_be_bytes}
use sekv.Rock.Num.{decode_i64, wrapping_add}
use sekv.Api.{
  Value, WriteRequest, put_request, delete_request, user_key_of, PutRequest, DeleteRequest, PutType,
  put_none, add_i64, nop, WriteCondition, TxnState, committed, aborted, TxnIntent, tombstone_intent,
  put_intent, IntentCodec, ExecCtx, WriteIntentRequest, CommitIntentRequest, ClearIntentRequest,
  WriteResponse,
}
use sekv.Result.{
  Result, ok, err, invalid_argument, invalid_data, decode_error, txn_conflict, cas_failed, ◌>>=◌,
  ◌>>◌, ok_or,
}
use sekv.Engine.Entry.{MvccEntry, entry_version, entry_value, to_value}
use sekv.Engine.Snapshot.{Snapshot, of_key, next_mvcc_iterator, next_mvcc_entry}
use sekv.Engine.Group
use sekv.Engine.Group.{GroupEngine, WriteBatch, snapshot}
use sekv.Eval.Cas.{eval_conditions}
use sekv.Eval.Forward.{forward_or}
use sekv.Eval.Get.{txn_intent_version}

abbrev pub GuardState : Type 0
GuardState = Option (TxnState × Option ℕ)

abbrev pub Resolve : Type 0
Resolve = TxnIntent → GroupEngine → Result GroupEngine

-- the former value of an addition, 0 where the key has none
abbrev pub former : Option Value → Result ℕ
former none = ok 0
former (some v) = elim v.content [
  | none ↦ ok 0
  | some content ↦ ok_or (decode_i64 content) invalid_argument
]

unfoldable pub apply_put_op : PutType → Option Value → Bytes → Result (Option Bytes)
apply_put_op add_i64 prev_value value = do
  delta ← ok_or (decode_i64 value) invalid_argument
  former_value ← former prev_value
  ok (some (to_be_bytes 8 (wrapping_add former_value delta)))
apply_put_op put_none prev_value value = ok (some value)
apply_put_op nop prev_value value = ok none

abbrev pub no_conditions : List WriteCondition → Bool
no_conditions [] = true
no_conditions (cond ∷ conditions) = false

abbrev pub is_add : PutType → Bool
is_add add_i64 = true
is_add _ = false

unfoldable pub is_atomic_operation : WriteRequest → Bool
is_atomic_operation (put_request put) = no_conditions put.conditions && is_add put.put_type
is_atomic_operation (delete_request del) = false

-- `if !wb.is_empty() { Some(EvalResult::with_batch(..)) } else { None }`
abbrev pub eval_result : WriteBatch → Option WriteBatch
eval_result [] = none
eval_result (op ∷ ops) = some (op ∷ ops)

module _ (codec : IntentCodec) (shard_id : ℕ) (key : Bytes) where
  abbrev next_value : Option (Result MvccEntry) → Result (Option Value)
  next_value none = ok none
  next_value (some e) = do entry ← e; value ← to_value entry; ok (some value)

  abbrev first_entry :
      Option (Result MvccEntry) × Snapshot → Result (Option TxnIntent × Option Value)
  first_entry (none, s) = ok (none, none)
  first_entry (some (err e), s) = err e
  first_entry (some (ok entry), s) =
      if entry_version entry == txn_intent_version
      then (do
        value ← entry_value entry
        content ← ok_or value invalid_data
        intent ← ok_or (codec.decode content) decode_error
        prev_value ← next_value (next_mvcc_entry s).0
        ok (some intent, prev_value))
      else (do value ← to_value entry; ok (none, some value))

  unfoldable pub read_intent_and_next_key : GroupEngine → Result (Option TxnIntent × Option Value)
  read_intent_and_next_key engine = do
    s ← snapshot engine shard_id (of_key key)
    let (r, s') = next_mvcc_iterator s
    elim r [
      | none ↦ ok (none, none)
      | some (err e) ↦ err e
      | some (ok u) ↦ first_entry (next_mvcc_entry s')
    ]

  abbrev own_intent : ℕ → Value → Result (Option TxnIntent)
  own_intent start_version value =
      if value.version == txn_intent_version
      then (do
        content ← ok_or value.content invalid_data
        intent ← ok_or (codec.decode content) decode_error
        ok (if intent.start_version == start_version then some intent else none))
      else ok none

  unfoldable pub read_target_intent : GroupEngine → ℕ → Result (Option TxnIntent)
  read_target_intent engine start_version = do
    value ← Group.get engine shard_id key
    elim value [ none ↦ ok none | some v ↦ own_intent start_version v ]

  -- The `loop` that resolves the intents of other transactions; `none` means that it goes on after
  -- `fuel` rounds. The flag says that the intent of this transaction is there already.
  unfoldable pub read_first_non_intent_key :
      Resolve → ℕ → ℕ → GroupEngine → Option (Result ((Bool × Option Value) × GroupEngine))
  read_first_non_intent_key resolve start_version zero engine = none
  read_first_non_intent_key resolve start_version (suc fuel) engine =
      elim (read_intent_and_next_key engine) [
        | err e ↦ some (err e)
        | ok r ↦ elim r.0 [
          | none ↦ some (ok ((false, r.1), engine))
          | some intent ↦
              let rest =
                elim (resolve intent engine)
                  as (λ _. Option (Result ((Bool × Option Value) × GroupEngine))) [
                    | err e ↦ some (err e)
                    | ok engine' ↦ read_first_non_intent_key resolve start_version fuel engine'
                  ] in
              if intent.start_version == start_version
              then some (ok ((true, r.1), engine))
              else rest
        ]
      ]

abbrev taken : Bool → Option Value → WriteResponse
taken take_prev_value prev_value = record {
  prev_value = if take_prev_value then prev_value else none;
}

-- `if let Some(cond_idx) = eval_conditions(..)? { return Err(Error::CasFailed(0, cond_idx, prev_value)) }`
abbrev pub check_conditions : Option Value → List WriteCondition → Result (Unit {0})
check_conditions prev_value conditions = do
  failed ← eval_conditions prev_value conditions
  elim failed [ none ↦ ok tt | some idx ↦ err (cas_failed 0 idx prev_value) ]

-- `value.version > req.start_version && !is_atomic_operation(write)`
abbrev pub check_conflict : WriteRequest → ℕ → Option Value → Result (Unit {0})
check_conflict write start_version none = ok tt
check_conflict write start_version (some value) =
    if ltb start_version value.version && not (is_atomic_operation write)
    then err txn_conflict
    else ok tt

module _ (codec : IntentCodec) (engine : GroupEngine) (shard_id start_version : ℕ)
    (prev_value : Option Value) where
  -- the batch of the request, unless its intent was written before (`skip_write`)
  unfoldable pub intent_batch : WriteRequest → Result WriteBatch
  unfolding Group.put
  intent_batch (delete_request del) = do
    check_conditions prev_value del.conditions
    Group.put engine [] shard_id del.key (codec.encode (tombstone_intent start_version))
        txn_intent_version
  intent_batch (put_request put) = do
    check_conditions prev_value put.conditions
    apply_value ← apply_put_op put.put_type prev_value put.value
    Group.put engine [] shard_id put.key (codec.encode (put_intent start_version apply_value))
        txn_intent_version

  abbrev pub response : WriteRequest → WriteResponse
  response (delete_request del) = taken del.take_prev_value prev_value
  response (put_request put) = taken put.take_prev_value prev_value

  unfoldable pub write_on : Bool → WriteRequest → Result (Option WriteBatch × WriteResponse)
  write_on skip_write write = do
    check_conflict write start_version prev_value
    wb ← if skip_write then ok [] else intent_batch write
    ok (eval_result wb, response write)

abbrev pub after_read :
    IntentCodec
    → ℕ
    → ℕ
    → WriteRequest
    → Result ((Bool × Option Value) × GroupEngine)
    → Result (Option WriteBatch × WriteResponse)
after_read codec shard_id start_version write (err e) = err e
after_read codec shard_id start_version write (ok ((skip_write, prev_value), engine)) =
    write_on codec engine shard_id start_version prev_value skip_write write

-- `none` means that the loop of `read_first_non_intent_key` goes on after `fuel` rounds.
unfoldable pub write_intent :
    IntentCodec
    → Resolve
    → ℕ
    → ExecCtx
    → GroupEngine
    → WriteIntentRequest
    → Option (Result (Option WriteBatch × WriteResponse))
write_intent codec resolve fuel exec_ctx engine req = elim req.write [
  | none ↦ some (err invalid_argument)
  | some write ↦
      let key = user_key_of write in
      elim (forward_or {A = Unit {0}} exec_ctx engine req.shard_id (key ∷ []) (ok tt)) [
        | err e ↦ some (err e)
        | ok u ↦
            elim (read_first_non_intent_key codec req.shard_id key resolve req.start_version fuel
              engine) [
                | none ↦ none
                | some r ↦ some (after_read codec req.shard_id req.start_version write r)
              ]
      ]
]

-- the delete of the intent, and the version that it leaves: none for a put of nothing
unfoldable pub commit_batch : GroupEngine → ℕ → Bytes → ℕ → TxnIntent → Result WriteBatch
unfolding Group.put Group.delete Group.tombstone
commit_batch engine shard_id key commit_version intent = do
  wb ← Group.delete engine [] shard_id key txn_intent_version
  if intent.is_delete
      then Group.tombstone engine wb shard_id key commit_version
      else elim intent.value [
        | none ↦ ok wb
        | some value ↦ Group.put engine wb shard_id key value commit_version
      ]

unfoldable pub commit_intent :
    IntentCodec
    → ExecCtx
    → GroupEngine
    → GuardState
    → CommitIntentRequest
    → Result (Option WriteBatch × GuardState)
commit_intent codec exec_ctx engine guard req =
    forward_or exec_ctx engine req.shard_id (req.user_key ∷ []) (do
      intent ← read_target_intent codec req.shard_id req.user_key engine req.start_version
      elim intent [
        | none ↦ ok (none, guard)
        | some i ↦ do
          wb ← commit_batch engine req.shard_id req.user_key req.commit_version i
          ok (eval_result wb, some (committed, some req.commit_version))
      ])

unfoldable pub clear_intent :
    IntentCodec
    → ExecCtx
    → GroupEngine
    → GuardState
    → ClearIntentRequest
    → Result (Option WriteBatch × GuardState)
clear_intent codec exec_ctx engine guard req =
    forward_or exec_ctx engine req.shard_id (req.user_key ∷ []) (do
      intent ← read_target_intent codec req.shard_id req.user_key engine req.start_version
      elim intent [
        | none ↦ ok (none, guard)
        | some i ↦ do
          wb ← Group.delete engine [] req.shard_id req.user_key txn_intent_version
          ok (eval_result wb, some (aborted, none))
      ])
