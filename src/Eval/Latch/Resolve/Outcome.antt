-- ===== src/Eval/Latch/Resolve/Outcome.antt =====
-- What `RemoteLatchGuard::resolve_txn` of server/src/replica/eval/latch.rs proposes and returns, by what it meets.
use sekv.Prelude.{ℕ, ◌<◌, ◌≤◌, ◌^◌, ◌∷◌, ◌⊎◌, ◌+◌, ◌%◌, ◌≡◌, Option, none, some, [], if◌then◌else◌}
use sekv.Prelude.Bytes.{Bytes}
use sekv.Api.{Value, TxnIntent, ShardDesc, TxnState, running, aborted, committed}
use sekv.Result.{invalid_data, panicked, Result, ok, err}
use sekv.Engine.Group
use sekv.Engine.Group.{GroupEngine, WriteBatch}
use sekv.Eval.Txn.Commit.{delete_intent, write_ops, committed_row}
use sekv.Client.TxnTable.Record.{TxnRecord}
use sekv.Eval.Latch.Resolve.{
  AbortAnswer, abort_done, already_final, abort_failed, Rounds, Decided, finish,
}

module _ (engine : GroupEngine) (shard_id : ℕ) (key : Bytes) (intent : TxnIntent) where
  abbrev then_decided :
      Option (Result (Option WriteBatch × Option Value))
      → Result (Option Decided)
      → Option (Result (Option WriteBatch × Option Value))
  then_decided again (err e) = some (err e)
  then_decided again (ok none) = again
  then_decided again (ok (some d)) = some (finish engine shard_id key intent d.state d)

  module _ (desc : ShardDesc) (known : engine.shard_descs shard_id ≡ some desc) where
    -- What is proposed and returned for an intent that is committed, and for one that is cleared.
    abbrev committed_at : ℕ → Option WriteBatch × Option Value
    committed_at version = (
      some (
          delete_intent desc.table_id key
          ∷ write_ops (committed_row desc.table_id key version intent)),
      some
          (record { content = if intent.is_delete then none else intent.value; version = version }),
    )

    abbrev cleared : Option WriteBatch × Option Value
    cleared = (some (delete_intent desc.table_id key ∷ []), none)

    abbrev IsOutcome : Type 1
    IsOutcome = Result (Option WriteBatch × Option Value) → Type 0

    abbrev CommittedAt : Option ℕ → IsOutcome
    CommittedAt none result = result ≡ ok (committed_at 0)
    CommittedAt (some version) result = result ≡ ok (committed_at version)

    abbrev Aborts : AbortAnswer → IsOutcome
    Aborts abort_done result = result ≡ ok cleared
    Aborts already_final result = ⊥
    Aborts (abort_failed e) result = result ≡ err e

    -- Who waits proposes nothing.
    abbrev Receives : TxnState × ℕ → IsOutcome
    Receives (committed, version) result = result ≡ ok (none, (committed_at version).1)
    Receives (aborted, version) result = result ≡ ok (none, none)
    Receives (running, version) result = result ≡ err panicked

    abbrev ByState : Rounds → ℕ → TxnRecord → TxnState → IsOutcome
    ByState rounds k txn committed result = CommittedAt txn.commit_version result
    ByState rounds k txn aborted result = result ≡ ok cleared
    ByState rounds k txn running result =
        (((txn.heartbeat + 500) % 2 ^ 64 < rounds.timestamp_millis k)
          × Aborts (rounds.abort k) result)
        ⊎ ((rounds.timestamp_millis k ≤ (txn.heartbeat + 500) % 2 ^ 64)
            × Receives (rounds.received k) result)

    abbrev pub ByRecord : Rounds → ℕ → Result (Option TxnRecord) → IsOutcome
    ByRecord rounds k (err e) result = result ≡ err e
    ByRecord rounds k (ok none) result = result ≡ err invalid_data
    ByRecord rounds k (ok (some txn)) result = ByState rounds k txn txn.state result

    abbrev Goes : Option (Result (Option WriteBatch × Option Value)) → IsOutcome → IsOutcome
    Goes again P result = P result ⊎ (again ≡ some result)
