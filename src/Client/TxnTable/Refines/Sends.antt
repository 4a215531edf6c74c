-- ===== src/Client/TxnTable/Refines/Sends.antt =====
-- What the operations of client/src/txn_table.rs promise by the state of a transaction, and what a write of
-- theirs does that the group of the table accepts or refuses.
use sekv.Prelude.{ℕ, suc, ◌≡◌, refl, ap, ◌∙◌, Option, none, some, List, []}
use sekv.Prelude.Bytes.{Bytes, to_be_bytes}
use sekv.Api.{Value, ShardWriteResponse, PutRequest, TxnState, running, aborted, committed}
use sekv.Schema.TxnKeys.{txn_state_key, txn_commit_key}
use sekv.Client.Error.{ClientResult, ok, err, cas_failed, not_found, invalid_argument}
use sekv.Client.TxnTable.{Cluster, send, begin_txn, heartbeat, commit_txn, abort_txn}
use sekv.Client.TxnTable.Requests.{met, prev_state}
use sekv.Client.TxnTable.Record.{txn_state_value, parse_txn_state-txn_state_value}
use sekv.Client.TxnTable.Refines.{Store, put_all, refusal, Serves, send-written, send-refused}

pub data TxnOp : Type 0 where
  begin_op heartbeat_op abort_op : TxnOp
  commit_op : ℕ → TxnOp

-- The state of a transaction after an operation, and what the operation returns. No state is that of a
-- transaction which did not begin.
abbrev pub next_state : TxnOp → Option TxnState → Option TxnState
next_state begin_op none = some running
next_state (commit_op v) (some running) = some committed
next_state abort_op (some running) = some aborted
next_state _ state = state

abbrev pub result_of : TxnOp → Option TxnState → ClientResult (Unit {0})
result_of heartbeat_op state = ok tt
result_of begin_op none = ok tt
result_of begin_op (some running) = ok tt
result_of begin_op (some state) = err invalid_argument
result_of (commit_op v) none = err not_found
result_of (commit_op v) (some aborted) = err invalid_argument
result_of (commit_op v) (some state) = ok tt
result_of abort_op none = err not_found
result_of abort_op (some committed) = err invalid_argument
result_of abort_op (some state) = ok tt

abbrev pub held : TxnState → ℕ → Option Value
held state version = some (record { content = some (txn_state_value state); version = version })

-- The value of the state's key holds a state.
abbrev pub HoldsState : Option TxnState → Option Value → Type 0
HoldsState none value = value ≡ none
HoldsState (some state) value = (version : ℕ) × (value ≡ held state version)

-- A refused write goes by the state that it met.
met-held :
    (by_state : TxnState → ClientResult (Unit {0})) (state : TxnState) (version : ℕ)
    → met {A = ShardWriteResponse} by_state (err (cas_failed 0 0 (held state version)))
      ≡ by_state state
unfolding prev_state
met-held by_state state version = rw (parse_txn_state-txn_state_value state) refl

abbrev pub state_key_of : {S : Type 0} → Cluster S → ℕ → Bytes
state_key_of cluster t = txn_state_key (cluster.hash_tag t) t

abbrev pub commit_key_of : {S : Type 0} → Cluster S → ℕ → Bytes
commit_key_of cluster t = txn_commit_key (cluster.hash_tag t) t

-- The value of the commit's key is a version.
abbrev pub HoldsVersion : ℕ → Option Value → Type 0
HoldsVersion commit_version value =
    (version : ℕ) × (value
      ≡ some (record { content = some (to_be_bytes 8 commit_version); version = version }))

module _ {S : Type 0} (cluster : Cluster S) (timeout : Option ℕ) (n : ℕ) (t : ℕ) where
  abbrev pub run : TxnOp → S → Option (ClientResult (Unit {0}) × S)
  run begin_op s = begin_txn cluster timeout (suc n) t s
  run heartbeat_op s = heartbeat cluster timeout (suc n) t s
  run abort_op s = abort_txn cluster timeout (suc n) t s
  run (commit_op v) s = commit_txn cluster timeout (suc n) t v s

module _ {S : Type 0} (cluster : Cluster S) (store : S → Store) (serves : Serves cluster store)
    (timeout : Option ℕ) (n : ℕ) (t : ℕ) where
  abbrev state_key : Bytes
  state_key = state_key_of cluster t

  module _ (puts : List PutRequest) (s : S) where
    abbrev pub Sends :
        (TxnState → ClientResult (Unit {0})) → ClientResult (Unit {0}) → Option TxnState → Type 0
    Sends by_state result state =
        (s' : S) × (send cluster timeout (suc n) (met by_state)
            (ok (record { hash_tag = cluster.hash_tag t; puts = puts; deletes = [] })) s
          ≡ some (result, s'))
        × HoldsState state (store s' state_key)

    module _ (by_state : TxnState → ClientResult (Unit {0})) where
      pub accepted :
          (state : TxnState)
          → refusal 0 puts (store s) ≡ none
          → ((version : ℕ) → put_all version puts (store s) state_key ≡ held state version)
          → Sends by_state (ok tt) (some state)
      accepted state h k =
          let r =
            send-written cluster store serves timeout n (cluster.hash_tag t) puts s (met by_state)
              (λ resp. refl) h in
          (r.0, r.1, (serves.version s puts, r.2 state_key ∙ k (serves.version s puts)))

      pub met_state :
          (state : TxnState) (version : ℕ)
          → store s state_key ≡ held state version
          → refusal 0 puts (store s) ≡ some (cas_failed 0 0 (held state version))
          → Sends by_state (by_state state) (some state)
      met_state state version h k =
          let r =
            send-refused cluster store serves timeout n (cluster.hash_tag t) puts s (met by_state) 0
              0 (held state version) k in
          (
            r.0,
            r.1 ∙ ap (λ x. some (x, r.0)) (met-held by_state state version),
            (version, r.2 state_key ∙ h),
          )

      pub met_nothing :
          store s state_key ≡ none
          → refusal 0 puts (store s) ≡ some (cas_failed 0 0 none)
          → Sends by_state (err not_found) none
      unfolding prev_state
      met_nothing h k =
          let r =
            send-refused cluster store serves timeout n (cluster.hash_tag t) puts s (met by_state) 0
              0 none k in
          (r.0, r.1, r.2 state_key ∙ h)
