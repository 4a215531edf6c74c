-- ===== src/Eval/Txn/Commit.antt =====
-- `commit_intent` and `clear_intent` on the rows of a column family: what their batches do.
use sekv.Prelude.{ℕ, ◌≡◌, refl, ◌≢◌, Option, none, some, List, [], ◌∷◌, arith, if◌then◌else◌}
use sekv.Prelude.Bytes.{Bytes}
use sekv.Api.{
  committed, aborted, TxnIntent, IntentCodec, ExecCtx, ShardDesc, CommitIntentRequest,
  ClearIntentRequest,
}
use sekv.Result.{Result, ok, err, ◌>>=◌}
use sekv.Engine.Group
use sekv.Engine.Group.{GroupEngine, BatchOp, put_op, delete_op, WriteBatch, shard_desc}
use sekv.Engine.Rows.{Row, row_key}
use sekv.Engine.Rows.Seek.{versions}
use sekv.Engine.Entry.RoundTrip.{stored}
use sekv.Engine.Group.Reads.{Holds}
use sekv.Eval.Forward.{moving_to, forward_or}
use sekv.Eval.Get.{txn_intent_version}
use sekv.Eval.Txn.{GuardState, commit_batch, eval_result, commit_intent, clear_intent}
use sekv.Eval.Txn.Reads.{target_intent, read_target_intent-eq}

-- The version that a committed intent leaves: none for a put of nothing.
abbrev pub committed_row : ℕ → Bytes → ℕ → TxnIntent → Option Row
committed_row t key commit_version intent =
    if intent.is_delete
    then some (record { table_id = t; key = key; version = commit_version; content = none })
    else elim intent.value [
      | none ↦ none
      | some v ↦
          some (record { table_id = t; key = key; version = commit_version; content = some v })
    ]

abbrev pub write_ops : Option Row → WriteBatch
write_ops none = []
write_ops (some r) = put_op (row_key r) (stored r.content) ∷ []

abbrev pub intent_row : ℕ → Bytes → Bytes → Row
intent_row t key content = record {
  table_id = t;
  key = key;
  version = txn_intent_version;
  content = some content;
}

abbrev pub delete_intent : ℕ → Bytes → BatchOp
delete_intent t key = delete_op (row_key (intent_row t key []))

abbrev pub commit_outcome :
    ℕ → Bytes → ℕ → GuardState → Option TxnIntent → Option WriteBatch × GuardState
commit_outcome t key commit_version guard none = (none, guard)
commit_outcome t key commit_version guard (some intent) = (
  some (delete_intent t key ∷ write_ops (committed_row t key commit_version intent)),
  some (committed, some commit_version),
)

abbrev pub clear_outcome :
    ℕ → Bytes → GuardState → Option TxnIntent → Option WriteBatch × GuardState
clear_outcome t key guard none = (none, guard)
clear_outcome t key guard (some intent) = (some (delete_intent t key ∷ []), some (aborted, none))

commit_batch-row :
    (engine : GroupEngine) (shard_id : ℕ) (desc : ShardDesc) (key : Bytes) (commit_version : ℕ)
    (intent : TxnIntent)
    → engine.shard_descs shard_id ≡ some desc
    → commit_batch engine shard_id key commit_version intent
      ≡ ok (
          delete_intent desc.table_id key
          ∷ write_ops (committed_row desc.table_id key commit_version intent))
unfolding commit_batch
commit_batch-row engine shard_id desc key commit_version intent h = ground arith

module _ (codec : IntentCodec) (engine : GroupEngine) (rows : List Row) (exec_ctx : ExecCtx)
    (guard : GuardState) (desc : ShardDesc) (holds : Holds engine rows) where
  -- `commit_intent`, where the shard does not move: if the newest version of the key is the intent
  -- of the request's transaction, the batch deletes it, writes its value or tombstone at the commit
  -- version, and the waiters will be signalled that it is committed; if there is no such intent
  -- nothing is written or signalled; a broken intent is an error. The column family holds the rows
  -- in order; the key is not empty.
  pub commit_intent-eq :
      (req : CommitIntentRequest)
      → engine.shard_descs req.shard_id ≡ some desc
      → req.user_key ≢ []
      → moving_to exec_ctx req.shard_id ≡ ok none
      → commit_intent codec exec_ctx engine guard req ≡ (do
        intent ←
            target_intent codec req.shard_id req.user_key req.start_version
              (versions desc.table_id req.user_key rows)
        ok (commit_outcome desc.table_id req.user_key req.commit_version guard intent))
  unfolding commit_intent forward_or versions
  commit_intent-eq req known nonempty m =
      rw
        (
          m,
          commit_intent,
          read_target_intent-eq codec engine rows req.shard_id desc req.user_key holds known
              nonempty req.start_version,
        )
        (go (
          target_intent codec req.shard_id req.user_key req.start_version
            (versions desc.table_id req.user_key rows)))
    where
      go :
          (r : Result (Option TxnIntent))
          → (r >>= λ intent. elim intent as (λ _. Result (Option WriteBatch × GuardState)) [
            | none ↦ ok (none, guard)
            | some i ↦ do
              wb ← commit_batch engine req.shard_id req.user_key req.commit_version i
              ok (eval_result wb, some (committed, some req.commit_version))
          ])
            ≡ (r >>= λ intent.
                ok (commit_outcome desc.table_id req.user_key req.commit_version guard intent))
      go (err e) = refl
      go (ok none) = refl
      go (ok (some i)) =
          rw (commit_batch-row engine req.shard_id desc req.user_key req.commit_version i known)
            refl

  -- `clear_intent`, where the shard does not move: the intent of the request's transaction is
  -- deleted, and nothing else is written, and the waiters will be signalled that it is aborted; if
  -- there is no such intent nothing is written or signalled; a broken intent is an error. The
  -- column family holds the rows in order; the key is not empty.
  pub clear_intent-eq :
      (req : ClearIntentRequest)
      → engine.shard_descs req.shard_id ≡ some desc
      → req.user_key ≢ []
      → moving_to exec_ctx req.shard_id ≡ ok none
      → clear_intent codec exec_ctx engine guard req ≡ (do
        intent ←
            target_intent codec req.shard_id req.user_key req.start_version
              (versions desc.table_id req.user_key rows)
        ok (clear_outcome desc.table_id req.user_key guard intent))
  unfolding clear_intent forward_or Group.delete
  clear_intent-eq req known nonempty m = ground (
    arith,
    read_target_intent-eq codec engine rows req.shard_id desc req.user_key holds known nonempty
        req.start_version,
  )
