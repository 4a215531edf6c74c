-- ===== src/Client/TxnTable/Refines.antt =====
-- The writes of client/src/txn_table.rs over a group that answers them from a store.
pub mod Sends
pub mod Steps
pub mod Decided
use sekv.Prelude.{
  ℕ, suc, ◌+◌, ◌≡◌, refl, ap, ◌∙◌, sym, Bool, true, false, Option, none, some, List, [], ◌∷◌,
  if◌then◌else◌,
}
use sekv.Prelude.Bytes.{Bytes, eq_bytes, eq_bytes_refl}
use sekv.Api.{
  Value, PutRequest, TxnState, running, aborted, committed, ShardWriteResponse, ShardDesc,
}
use sekv.Result
use sekv.Eval.Cas.{eval_conditions}
use sekv.Schema.TxnKeys.{
  txn_lower_key, txn_state_key, txn_heartbeat_key, txn_commit_key, heartbeat-state, commit-state,
  state-heartbeat, state-commit,
}
use sekv.Client.Error.{ClientError, ClientResult, ok, err, cas_failed, not_found, invalid_argument}
use sekv.Client.Retry
use sekv.Client.Retry.{RetryState, with_timeout_opt}
use sekv.Client.TxnTable.{
  Cluster, write, write_inner, retrying, replied, send, write_request, write_response, begin_txn,
  heartbeat, commit_txn, abort_txn,
}
use sekv.Client.TxnTable.Requests.{TxnWriteRequest, met, begin_met}
use sekv.Client.TxnTable.Record.{txn_state_value}

-- The newest values of the table's keys.
abbrev pub Store : Type 0
Store = Bytes → Option Value

-- A batch of puts takes effect as the server's `batch_write` does it: the first put whose conditions do not
-- hold refuses the whole batch with the value that it met. `version` is that of the values written.
unfoldable pub put_all : ℕ → List PutRequest → Store → Store
put_all version [] store = store
put_all version (put ∷ puts) store = put_all version puts (λ key.
    if eq_bytes key put.key
    then some (record { content = some put.value; version = version })
    else store key)

unfoldable pub refusal : ℕ → List PutRequest → Store → Option ClientError
refusal idx [] store = none
refusal idx (put ∷ puts) store =
    let rest = refusal (idx + 1) puts store in
    elim (eval_conditions (store put.key) put.conditions) [
      | Result.ok none ↦ rest
      | Result.ok (some cond_idx) ↦ some (cas_failed idx cond_idx (store put.key))
      | Result.err e ↦ some invalid_argument
    ]

-- The group that holds the table answers each write, and its answer is that of the store.
pub record Serves {S : Type 0} (cluster : Cluster S) (store : S → Store) : Type 0 where
  pub group : S → ℕ
  pub shard : S → ShardDesc
  pub found :
      (s : S) (hash_tag : ℕ)
      → cluster.find_shard s cluster.txn_table_id (txn_lower_key hash_tag) ≡ ok (group s, shard s)
  pub after : S → List PutRequest → S
  pub resp : S → List PutRequest → ShardWriteResponse
  pub version : S → List PutRequest → ℕ
  pub written :
      (s : S) (puts : List PutRequest)
      → refusal 0 puts (store s) ≡ none
      → (cluster.request s (group s) (
            write_request (record { shard_id = ShardDesc.id (shard s); deletes = []; puts = puts }))
          ≡ (ok (write_response (resp s puts)), after s puts))
        × ((key : Bytes) → store (after s puts) key ≡ put_all (version s puts) puts (store s) key)
  pub refused :
      (s : S) (puts : List PutRequest) (e : ClientError)
      → refusal 0 puts (store s) ≡ some e
      → (cluster.request s (group s) (
            write_request (record { shard_id = ShardDesc.id (shard s); deletes = []; puts = puts }))
          ≡ (err e, after s puts))
        × ((key : Bytes) → store (after s puts) key ≡ store s key)

module _ {S : Type 0} (cluster : Cluster S) {A : Type 0} (attempt : S → ClientResult A × S) (n : ℕ)
    (state : RetryState) (s s' : S) where
  retrying-ok :
      (value : A)
      → attempt s ≡ (ok value, s')
      → retrying cluster attempt (suc n) state s ≡ some (ok value, s')
  unfolding retrying
  retrying-ok value h =
      let answer : (attempt s).0 ≡ ok value = ap (λ p. p.0) h in
      let left : (attempt s).1 ≡ s' = ap (λ p. p.1) h in rw (retrying, answer, left) refl

  -- An error that no retry is for is returned.
  retrying-err :
      (e : ClientError)
      → attempt s ≡ (err e, s')
      → Retry.is_retryable e ≡ ok false
      → retrying cluster attempt (suc n) state s ≡ some (err e, s')
  unfolding retrying Retry.retry
  retrying-err e h k =
      let answer : (attempt s).0 ≡ err e = ap (λ p. p.0) h in
      let left : (attempt s).1 ≡ s' = ap (λ p. p.1) h in
      rw (retrying, answer, Retry.retry, k) (ap (λ x. some (err e, x)) left)

module _ {S : Type 0} (cluster : Cluster S) (store : S → Store) (serves : Serves cluster store)
    (timeout : Option ℕ) (n : ℕ) (hash_tag : ℕ) (puts : List PutRequest) (s : S) where
  abbrev req : TxnWriteRequest
  req = record { hash_tag = hash_tag; puts = puts; deletes = [] }

  write-written :
      refusal 0 puts (store s) ≡ none
      → write cluster timeout (suc n) req s ≡ some (ok (serves.resp s puts), serves.after s puts)
  unfolding write write_inner
  write-written h =
      retrying-ok cluster (write_inner cluster req) n
        (with_timeout_opt cluster.checked_add (cluster.now s) timeout) s (serves.after s puts)
        (serves.resp s puts)
        (rw (write_inner, serves.found s hash_tag, (serves.written s puts h).0) refl)

  write-refused :
      (idx cond_idx : ℕ) (prev : Option Value)
      → refusal 0 puts (store s) ≡ some (cas_failed idx cond_idx prev)
      → write cluster timeout (suc n) req s
        ≡ some (err (cas_failed idx cond_idx prev), serves.after s puts)
  unfolding write write_inner Retry.is_retryable
  write-refused idx cond_idx prev h =
      retrying-err cluster (write_inner cluster req) n
        (with_timeout_opt cluster.checked_add (cluster.now s) timeout) s (serves.after s puts)
        (cas_failed idx cond_idx prev)
        (rw
          (
            write_inner,
            serves.found s hash_tag,
            (serves.refused s puts (cas_failed idx cond_idx prev) h).0,
          )
          refl)
        refl

  -- What is left of the store, and what the table's operation returns.
  abbrev pub Sent :
      (ClientResult ShardWriteResponse → ClientResult (Unit {0}))
      → ClientResult (Unit {0})
      → Store
      → Type 0
  Sent reply result store' =
      (s' : S) × (send cluster timeout (suc n) reply (ok req) s ≡ some (result, s'))
      × ((key : Bytes) → store s' key ≡ store' key)

  pub send-written :
      (reply : ClientResult ShardWriteResponse → ClientResult (Unit {0}))
      → ((resp : ShardWriteResponse) → reply (ok resp) ≡ ok tt)
      → refusal 0 puts (store s) ≡ none
      → Sent reply (ok tt) (put_all (serves.version s puts) puts (store s))
  send-written reply k h = (
    serves.after s puts,
    ap (replied cluster reply) (write-written h)
        ∙ ap (λ r. some (r, serves.after s puts)) (k (serves.resp s puts)),
    (serves.written s puts h).1,
  )

  pub send-refused :
      (reply : ClientResult ShardWriteResponse → ClientResult (Unit {0}))
      → (idx cond_idx : ℕ) (prev : Option Value)
      → refusal 0 puts (store s) ≡ some (cas_failed idx cond_idx prev)
      → Sent reply (reply (err (cas_failed idx cond_idx prev))) (store s)
  send-refused reply idx cond_idx prev h = (
    serves.after s puts,
    ap (replied cluster reply) (write-refused idx cond_idx prev h),
    (serves.refused s puts (cas_failed idx cond_idx prev) h).1,
  )
