-- ===== src/Client/TxnTable/Requests.antt =====
-- The writes that the operations of client/src/txn_table.rs send, and what each operation makes of the answer.
use sekv.Prelude.{ℕ, Option, none, some, List, [], ◌∷◌, ◌==◌, ◌&&◌, if◌then◌else◌}
use sekv.Prelude.Bytes.{Bytes, to_le_bytes}
use sekv.Api.{
  Value, PutRequest, DeleteRequest, TxnState, running, aborted, committed, ShardWriteResponse,
}
use sekv.Schema.TxnKeys.{txn_state_key, txn_heartbeat_key, txn_commit_key}
use sekv.Client.Error.{
  ClientError, ClientResult, ok, err, ◌>>=◌, ok_or, cas_failed, internal, not_found,
  invalid_argument,
}
use sekv.Client.Builder
use sekv.Client.Builder.{
  WriteBuilder, ensure_put, push_expect_exists, push_expect_not_exists, push_expect_value,
  taking_prev_value,
}
use sekv.Client.TxnTable.Record.{parse_txn_state, txn_state_value, txn_u64_value}

pub record TxnWriteRequest : Type 0 where
  pub hash_tag : ℕ
  pub puts : List PutRequest
  pub deletes : List DeleteRequest

unfoldable pub begin_request : ℕ → ℕ → ℕ → ClientResult TxnWriteRequest
begin_request hash_tag timestamp start_version = do
  state ← ensure_put (txn_state_value running) (
      taking_prev_value
        (push_expect_not_exists (Builder.new (txn_state_key hash_tag start_version))))
  heartbeat ←
      ensure_put (to_le_bytes 8 timestamp) (Builder.new (txn_heartbeat_key hash_tag start_version))
  ok (record { hash_tag = hash_tag; puts = state ∷ heartbeat ∷ []; deletes = [] })

unfoldable pub heartbeat_request : ℕ → ℕ → ℕ → ClientResult TxnWriteRequest
heartbeat_request hash_tag timestamp start_version = do
  heartbeat ←
      ensure_put (txn_u64_value timestamp)
        (push_expect_exists (Builder.new (txn_heartbeat_key hash_tag start_version)))
  ok (record { hash_tag = hash_tag; puts = heartbeat ∷ []; deletes = [] })

unfoldable pub commit_request : ℕ → ℕ → ℕ → ℕ → ClientResult TxnWriteRequest
commit_request hash_tag timestamp start_version commit_version = do
  state ← ensure_put (txn_state_value committed) (
      taking_prev_value (
        push_expect_value (txn_state_value running)
          (Builder.new (txn_state_key hash_tag start_version))))
  commit ←
      ensure_put (txn_u64_value commit_version)
        (Builder.new (txn_commit_key hash_tag start_version))
  heartbeat ←
      ensure_put (txn_u64_value timestamp) (Builder.new (txn_heartbeat_key hash_tag start_version))
  ok (record { hash_tag = hash_tag; puts = state ∷ commit ∷ heartbeat ∷ []; deletes = [] })

unfoldable pub abort_request : ℕ → ℕ → ℕ → ClientResult TxnWriteRequest
abort_request hash_tag timestamp start_version = do
  state ← ensure_put (txn_state_value aborted) (
      taking_prev_value (
        push_expect_value (txn_state_value running)
          (Builder.new (txn_state_key hash_tag start_version))))
  heartbeat ←
      ensure_put (txn_u64_value timestamp) (Builder.new (txn_heartbeat_key hash_tag start_version))
  ok (record { hash_tag = hash_tag; puts = state ∷ heartbeat ∷ []; deletes = [] })

abbrev content_of : Option Value → Option Bytes
content_of none = none
content_of (some v) = v.content

-- The part that `begin_txn`, `commit_txn` and `abort_txn` share: the state that the write met, from the error of
-- the write.
unfoldable pub prev_state : ClientError → ClientResult TxnState
prev_state (cas_failed idx cond_idx prev_value) =
    if (idx == 0) && (cond_idx == 0)
    then (ok_or (content_of prev_value) not_found >>= parse_txn_state)
    else err internal
prev_state e = err e

abbrev pub met :
    {A : Type 0} → (TxnState → ClientResult (Unit {0})) → ClientResult A → ClientResult (Unit {0})
met by_state (ok resp) = ok tt
met by_state (err e) = prev_state e >>= by_state

abbrev pub begin_met : TxnState → ClientResult (Unit {0})
begin_met running = ok tt
begin_met committed = err invalid_argument
begin_met aborted = err invalid_argument

abbrev pub commit_met : TxnState → ClientResult (Unit {0})
commit_met running = err internal
commit_met committed = ok tt
commit_met aborted = err invalid_argument

abbrev pub abort_met : TxnState → ClientResult (Unit {0})
abort_met running = err internal
abort_met committed = err invalid_argument
abort_met aborted = ok tt

-- A heartbeat of a transaction that is not there is no error.
abbrev pub heartbeat_met : ClientResult ShardWriteResponse → ClientResult (Unit {0})
heartbeat_met (ok resp) = ok tt
heartbeat_met (err (cas_failed idx cond_idx prev_value)) = ok tt
heartbeat_met (err e) = err e
