-- ===== src/Client/TxnTable/Refines/Steps.antt =====
-- The operations of client/src/txn_table.rs against what the comment of its record promises: RUNNING goes to
-- COMMITTED or to ABORTED, and neither is left.
use sekv.Prelude.{ℕ, ◌≡◌, refl, ap, ◌∙◌, sym, true, false, Option, none, some, List, [], ◌∷◌}
use mathlib.Core.Path.{subst}
use sekv.Prelude.Bytes.{Bytes, to_le_bytes, cmp, eq_bytes_refl}
use sekv.Api.{Value, WriteCondition, PutRequest, put_none, TxnState, running, aborted, committed}
use sekv.Eval.Cas.{eval_conditions, eval_condition, eval_value, eval_none}
use sekv.Schema.TxnKeys.{
  txn_heartbeat_key, txn_commit_key, state-heartbeat, state-commit, commit-heartbeat,
}
use sekv.Client.Error.{ok, cas_failed}
use sekv.Client.Builder.{
  put, ensure, ensure_put, verify_conditions, push_expect_exists, push_expect_not_exists,
  push_expect_value, taking_prev_value, into,
}
use sekv.Client.Builder
use sekv.Client.TxnTable.{Cluster, begin_txn, heartbeat, commit_txn, abort_txn}
use sekv.Client.TxnTable.Requests.{
  met, begin_met, commit_met, abort_met, heartbeat_met, begin_request, heartbeat_request,
  commit_request, abort_request,
}
use sekv.Client.TxnTable.Record.{as_str_name, txn_state_value, txn_u64_value}
use sekv.Client.TxnTable.Refines.{Store, put_all, refusal, Serves, send-written, send-refused}
use sekv.Client.TxnTable.Refines.Sends.{
  TxnOp, begin_op, heartbeat_op, abort_op, commit_op, next_state, result_of, HoldsState,
  HoldsVersion, state_key_of, commit_key_of, run, accepted, met_state, met_nothing,
}

module _ {S : Type 0} (cluster : Cluster S) (store : S → Store) (serves : Serves cluster store)
    (timeout : Option ℕ) (n : ℕ) (t : ℕ) where
  abbrev state_key : Bytes
  state_key = state_key_of cluster t

  abbrev Stepped : TxnOp → Option TxnState → S → Type 0
  Stepped op state s =
      (s' : S) × (run cluster timeout n t op s ≡ some (result_of op state, s'))
      × HoldsState (next_state op state) (store s' state_key)

  abbrev heartbeat_put : Bytes → List WriteCondition → PutRequest
  heartbeat_put value conditions = record {
    put_type = put_none;
    ttl = 0;
    key = txn_heartbeat_key (cluster.hash_tag t) t;
    value = value;
    conditions = conditions;
    take_prev_value = false;
  }

  abbrev state_put : TxnState → WriteCondition → PutRequest
  state_put state condition = record {
    put_type = put_none;
    ttl = 0;
    key = state_key;
    value = txn_state_value state;
    conditions = condition ∷ [];
    take_prev_value = true;
  }

  abbrev if_running : WriteCondition
  if_running = record { type = 2; value = txn_state_value running; version = 0; begin = 0 }

  abbrev begin_puts : S → List PutRequest
  begin_puts s =
      state_put running (record { type = 1; value = []; version = 0; begin = 0 })
      ∷ heartbeat_put (to_le_bytes 8 (cluster.timestamp_millis s)) []
      ∷ []

  abbrev abort_puts : S → List PutRequest
  abort_puts s =
      state_put aborted if_running
      ∷ heartbeat_put (txn_u64_value (cluster.timestamp_millis s)) []
      ∷ []

  abbrev commit_puts : ℕ → S → List PutRequest
  commit_puts v s =
      state_put committed if_running
      ∷ record {
        put_type = put_none;
        ttl = 0;
        key = txn_commit_key (cluster.hash_tag t) t;
        value = txn_u64_value v;
        conditions = [];
        take_prev_value = false;
      }
      ∷ heartbeat_put (txn_u64_value (cluster.timestamp_millis s)) []
      ∷ []

  begin-Stepped :
      (state : Option TxnState) (s : S)
      → HoldsState state (store s state_key)
      → Stepped begin_op state s
  unfolding begin_txn begin_request ensure_put ensure put verify_conditions taking_prev_value
      push_expect_not_exists into Builder.new refusal eval_conditions eval_condition eval_none
      eval_value put_all
  begin-Stepped none s h =
      accepted cluster store serves timeout n t (begin_puts s) s begin_met running
        (rw (refusal, h) refl)
        (λ version. rw (state-heartbeat (cluster.hash_tag t) t, eq_bytes_refl state_key) refl)
  begin-Stepped (some running) s (v, h) =
      met_state cluster store serves timeout n t (begin_puts s) s begin_met running v h
        (rw (refusal, h) (ap (λ x. some (cas_failed 0 0 x)) h))
  begin-Stepped (some committed) s (v, h) =
      met_state cluster store serves timeout n t (begin_puts s) s begin_met committed v h
        (rw (refusal, h) (ap (λ x. some (cas_failed 0 0 x)) h))
  begin-Stepped (some aborted) s (v, h) =
      met_state cluster store serves timeout n t (begin_puts s) s begin_met aborted v h
        (rw (refusal, h) (ap (λ x. some (cas_failed 0 0 x)) h))

  abort-Stepped :
      (state : Option TxnState) (s : S)
      → HoldsState state (store s state_key)
      → Stepped abort_op state s
  unfolding abort_txn abort_request ensure_put ensure put verify_conditions taking_prev_value
      push_expect_value into Builder.new refusal eval_conditions eval_condition eval_none eval_value
      put_all txn_state_value as_str_name cmp
  abort-Stepped none s h =
      met_nothing cluster store serves timeout n t (abort_puts s) s abort_met h
        (rw (refusal, h) (ap (λ x. some (cas_failed 0 0 x)) h))
  abort-Stepped (some running) s (v, h) =
      accepted cluster store serves timeout n t (abort_puts s) s abort_met aborted
        (rw (refusal, h) refl)
        (λ version. rw (state-heartbeat (cluster.hash_tag t) t, eq_bytes_refl state_key) refl)
  abort-Stepped (some committed) s (v, h) =
      met_state cluster store serves timeout n t (abort_puts s) s abort_met committed v h
        (rw (refusal, h) (ap (λ x. some (cas_failed 0 0 x)) h))
  abort-Stepped (some aborted) s (v, h) =
      met_state cluster store serves timeout n t (abort_puts s) s abort_met aborted v h
        (rw (refusal, h) (ap (λ x. some (cas_failed 0 0 x)) h))

  commit-Stepped :
      (c : ℕ) (state : Option TxnState) (s : S)
      → HoldsState state (store s state_key)
      → Stepped (commit_op c) state s
  unfolding commit_txn commit_request ensure_put ensure put verify_conditions taking_prev_value
      push_expect_value into Builder.new refusal eval_conditions eval_condition eval_none eval_value
      put_all txn_state_value as_str_name cmp
  commit-Stepped c none s h =
      met_nothing cluster store serves timeout n t (commit_puts c s) s commit_met h
        (rw (refusal, h) (ap (λ x. some (cas_failed 0 0 x)) h))
  commit-Stepped c (some running) s (v, h) =
      accepted cluster store serves timeout n t (commit_puts c s) s commit_met committed
        (rw (refusal, h) refl)
        (λ version.
          rw
            (
              state-heartbeat (cluster.hash_tag t) t,
              state-commit (cluster.hash_tag t) t,
              eq_bytes_refl state_key,
            )
            refl)
  commit-Stepped c (some committed) s (v, h) =
      met_state cluster store serves timeout n t (commit_puts c s) s commit_met committed v h
        (rw (refusal, h) (ap (λ x. some (cas_failed 0 0 x)) h))
  commit-Stepped c (some aborted) s (v, h) =
      met_state cluster store serves timeout n t (commit_puts c s) s commit_met aborted v h
        (rw (refusal, h) (ap (λ x. some (cas_failed 0 0 x)) h))

  -- The commit of a running transaction writes its version.
  pub commit-Written :
      (c : ℕ) (s : S)
      → HoldsState (some running) (store s (state_key_of cluster t))
      → (s' : S) × (run cluster timeout n t (commit_op c) s ≡ some (ok tt, s'))
        × HoldsState (some committed) (store s' (state_key_of cluster t))
        × HoldsVersion c (store s' (commit_key_of cluster t))
  unfolding commit_txn commit_request ensure_put ensure put verify_conditions taking_prev_value
      push_expect_value into Builder.new refusal eval_conditions eval_condition eval_none eval_value
      put_all txn_state_value txn_u64_value as_str_name cmp
  commit-Written c s (v, h) =
      let version = serves.version s (commit_puts c s) in
      let hash = cluster.hash_tag t in
      let r =
        send-written cluster store serves timeout n hash (commit_puts c s) s (met commit_met)
          (λ resp. refl) (rw (refusal, h) refl) in
      (
        r.0,
        r.1,
        (
          version,
          r.2 state_key
              ∙ rw (state-heartbeat hash t, state-commit hash t, eq_bytes_refl state_key) refl,
        ),
        (
          version,
          r.2 (commit_key_of cluster t)
              ∙ rw (commit-heartbeat hash t, eq_bytes_refl (commit_key_of cluster t)) refl,
        ),
      )

  abbrev if_exists : WriteCondition
  if_exists = record { type = 0; value = []; version = 0; begin = 0 }

  abbrev heartbeat_puts : S → List PutRequest
  heartbeat_puts s =
      heartbeat_put (txn_u64_value (cluster.timestamp_millis s)) (if_exists ∷ []) ∷ []

  -- Whether the heartbeat's key holds a value or not, the state is left as it is.
  heartbeat-Stepped :
      (state : Option TxnState) (s : S)
      → HoldsState state (store s state_key)
      → Stepped heartbeat_op state s
  unfolding heartbeat heartbeat_request ensure_put ensure put verify_conditions push_expect_exists
      into Builder.new refusal eval_conditions eval_condition eval_none eval_value put_all
  heartbeat-Stepped state s h = by_value (store s (txn_heartbeat_key (cluster.hash_tag t) t)) refl
    where
      left : {a b : Option Value} → a ≡ b → HoldsState state b → HoldsState state a
      left e k = subst (λ v. HoldsState state v) (sym e) k

      missing :
          (value : Option Value)
          → refusal 0 (heartbeat_puts s) (store s) ≡ some (cas_failed 0 0 value)
          → Stepped heartbeat_op state s
      missing value k =
          let r =
            send-refused cluster store serves timeout n (cluster.hash_tag t) (heartbeat_puts s) s
              heartbeat_met 0 0 value k in
          (r.0, r.1, left (r.2 state_key) h)

      by_content :
          (v : Value) (content : Option Bytes)
          → v.content ≡ content
          → store s (txn_heartbeat_key (cluster.hash_tag t) t) ≡ some v
          → Stepped heartbeat_op state s
      by_content v none k e =
          let e' : store s (txn_heartbeat_key (cluster.hash_tag t) t)
              ≡ some (record { content = none; version = v.version }) =
            e ∙ ap (λ c. some (record { content = c; version = v.version })) k in
          missing (some (record { content = none; version = v.version }))
            (rw (refusal, e') (ap (λ x. some (cas_failed 0 0 x)) e'))
      by_content v (some c) k e =
          let r =
            send-written cluster store serves timeout n (cluster.hash_tag t) (heartbeat_puts s) s
              heartbeat_met (λ resp. refl) (rw (refusal, e, k) refl) in
          (r.0, r.1, left (r.2 state_key ∙ rw (state-heartbeat (cluster.hash_tag t) t) refl) h)

      by_value :
          (value : Option Value)
          → store s (txn_heartbeat_key (cluster.hash_tag t) t) ≡ value
          → Stepped heartbeat_op state s
      by_value none e = missing none (rw (refusal, e) (ap (λ x. some (cas_failed 0 0 x)) e))
      by_value (some v) e = by_content v v.content refl e

  -- Each operation returns what the state says and leaves the state that the operation leads to, whatever the
  -- state was; the group of the table answers the writes.
  pub run-Stepped :
      (op : TxnOp) (state : Option TxnState) (s : S)
      → HoldsState state (store s (state_key_of cluster t))
      → (s' : S) × (run cluster timeout n t op s ≡ some (result_of op state, s'))
        × HoldsState (next_state op state) (store s' (state_key_of cluster t))
  run-Stepped begin_op = begin-Stepped
  run-Stepped heartbeat_op = heartbeat-Stepped
  run-Stepped abort_op = abort-Stepped
  run-Stepped (commit_op c) = commit-Stepped c
