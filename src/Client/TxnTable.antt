-- ===== src/Client/TxnTable.antt =====
-- `TxnStateTable` of client/src/txn_table.rs: the records of transactions, which a client keeps in the keys of a
-- system table. `Cluster` stands for what the table calls: the router, the group client, the clock and the
-- FNV hash. A message text is dropped, as are the time-outs of the group client and the checks of debug builds.
pub mod Record
pub mod Requests
pub mod Refines
use sekv.Prelude.{
  ℕ, zero, suc, Bool, true, false, Option, none, some, List, [], ◌∷◌, ◌==◌, ◌&&◌, not,
  if◌then◌else◌,
}
use sekv.Prelude.Bytes.{Bytes, to_be_bytes, to_le_bytes}
use sekv.Api.{
  Value, ValueSet, ShardDesc, PutRequest, DeleteRequest, TxnState, running, aborted, committed,
  ShardWriteRequest, ShardWriteResponse, ShardScanRequest, ShardScanResponse,
}
use sekv.Schema.TxnKeys.{
  txn_lower_key, txn_prefix, txn_state_key, txn_heartbeat_key, txn_commit_key,
}
use sekv.Client.Error.{
  ClientError, ClientResult, ok, err, ◌>>=◌, ok_or, cas_failed, internal, not_found,
  invalid_argument,
}
use sekv.Client.Retry
use sekv.Client.Retry.{RetryState, with_timeout_opt}
use sekv.Client.Builder
use sekv.Client.Builder.{
  WriteBuilder, ensure_put, push_expect_exists, push_expect_not_exists, push_expect_value,
  taking_prev_value,
}
use sekv.Client.TxnTable.Record.{
  TxnRecord, parse_txn_record, parse_txn_state, txn_state_value, txn_u64_value,
}
use sekv.Client.TxnTable.Requests.{
  TxnWriteRequest, begin_request, heartbeat_request, commit_request, abort_request, prev_state, met,
  begin_met, commit_met, abort_met, heartbeat_met,
}

pub data GroupRequest : Type 0 where
  write_request : ShardWriteRequest → GroupRequest
  scan_request : ShardScanRequest → GroupRequest

-- The responses to a write and to a scan; the others are one.
pub data GroupResponse : Type 0 where
  write_response : ShardWriteResponse → GroupResponse
  scan_response : ShardScanResponse → GroupResponse
  other_response : GroupResponse

-- What the table calls, over a state of the world: `find_shard` of the router gives a group and a shard of a
-- table's key, `request` is one of the group client, and `sleep` is the timer's.
pub record Cluster (S : Type 0) : Type 0 where
  pub find_shard : S → ℕ → Bytes → ClientResult (ℕ × ShardDesc)
  pub request : S → ℕ → GroupRequest → ClientResult GroupResponse × S
  pub now : S → ℕ
  pub sleep : S → ℕ → S
  pub checked_add : ℕ → ℕ → Option ℕ
  pub timestamp_millis : S → ℕ
  pub hash_tag : ℕ → ℕ
  pub txn_table_id : ℕ
  pub txn_max_version : ℕ

abbrev to_write : ClientResult GroupResponse → ClientResult ShardWriteResponse
to_write response = do
  r ← response
  elim r [
    | write_response resp ↦ ok resp
    | scan_response resp ↦ err internal
    | other_response ↦ err internal
  ]

abbrev to_scan : ClientResult GroupResponse → ClientResult ShardScanResponse
to_scan response = do
  r ← response
  elim r [
    | write_response resp ↦ err internal
    | scan_response resp ↦ ok resp
    | other_response ↦ err internal
  ]

-- `TXN_TIMEOUT`, in milliseconds
abbrev pub txn_timeout : ℕ
txn_timeout = 5000

module _ {S : Type 0} (cluster : Cluster S) where
  unfoldable pub write_inner : TxnWriteRequest → S → ClientResult ShardWriteResponse × S
  write_inner write s =
      elim (cluster.find_shard s cluster.txn_table_id (txn_lower_key write.hash_tag)) [
        | err e ↦ (err e, s)
        | ok (group, shard) ↦
            let answer = cluster.request s group (
              write_request
                (record { shard_id = shard.id; deletes = write.deletes; puts = write.puts })) in
            (to_write answer.0, answer.1)
      ]

  unfoldable pub scan_inner : Bytes → S → ClientResult ShardScanResponse × S
  scan_inner prefix s = elim (cluster.find_shard s cluster.txn_table_id prefix) [
    | err e ↦ (err e, s)
    | ok (group, shard) ↦
        let answer = cluster.request s group (
          scan_request (record {
            shard_id = shard.id;
            start_version = cluster.txn_max_version;
            limit = 0;
            limit_bytes = 0;
            exclude_start_key = false;
            exclude_end_key = false;
            prefix = some prefix;
            start_key = none;
            end_key = none;
            include_raw_data = false;
            ignore_txn_intent = false;
            allow_scan_moving_shard = false;
          })) in
        (to_scan answer.0, answer.1)
  ]

  -- The loop of `write` and of `scan_txn_keys`; with no fuel left there is no result.
  unfoldable pub retrying :
      {A : Type 0} → (S → ClientResult A × S) → ℕ → RetryState → S → Option (ClientResult A × S)
  retrying attempt zero state s = none
  retrying attempt (suc fuel) state s =
      let r = attempt s in
      elim (r.0) [
        | ok value ↦ some (ok value, r.1)
        | err e ↦ elim (Retry.retry (cluster.now r.1) e state) [
          | err e' ↦ some (err e', r.1)
          | ok (interval, next) ↦ retrying attempt fuel next (cluster.sleep r.1 interval)
        ]
      ]

  abbrev pub replied :
      (ClientResult ShardWriteResponse → ClientResult (Unit {0}))
      → Option (ClientResult ShardWriteResponse × S)
      → Option (ClientResult (Unit {0}) × S)
  replied reply none = none
  replied reply (some (r, s)) = some (reply r, s)

  module _ (timeout : Option ℕ) (fuel : ℕ) where
    unfoldable pub write : TxnWriteRequest → S → Option (ClientResult ShardWriteResponse × S)
    write request s =
        retrying (write_inner request) fuel
          (with_timeout_opt cluster.checked_add (cluster.now s) timeout) s

    abbrev pub send :
        (ClientResult ShardWriteResponse → ClientResult (Unit {0}))
        → ClientResult TxnWriteRequest
        → S
        → Option (ClientResult (Unit {0}) × S)
    send reply (err e) s = some (err e, s)
    send reply (ok request) s = replied reply (write request s)

    unfoldable pub begin_txn : ℕ → S → Option (ClientResult (Unit {0}) × S)
    begin_txn start_version s =
        send (met begin_met)
          (begin_request (cluster.hash_tag start_version) (cluster.timestamp_millis s)
            start_version)
          s

    unfoldable pub heartbeat : ℕ → S → Option (ClientResult (Unit {0}) × S)
    heartbeat start_version s =
        send heartbeat_met
          (heartbeat_request (cluster.hash_tag start_version) (cluster.timestamp_millis s)
            start_version)
          s

    unfoldable pub commit_txn : ℕ → ℕ → S → Option (ClientResult (Unit {0}) × S)
    commit_txn start_version commit_version s =
        send (met commit_met)
          (commit_request (cluster.hash_tag start_version) (cluster.timestamp_millis s)
            start_version commit_version)
          s

    unfoldable pub abort_txn : ℕ → S → Option (ClientResult (Unit {0}) × S)
    abort_txn start_version s =
        send (met abort_met)
          (abort_request (cluster.hash_tag start_version) (cluster.timestamp_millis s)
            start_version)
          s

    unfoldable pub get_txn_record : ℕ → S → Option (ClientResult (Option TxnRecord) × S)
    get_txn_record start_version s =
        let hash_tag = cluster.hash_tag start_version in
        elim (retrying (scan_inner (txn_prefix hash_tag start_version)) fuel
          (with_timeout_opt cluster.checked_add (cluster.now s) (some txn_timeout)) s) [
            | none ↦ none
            | some (r, s') ↦
                some ((r >>= λ resp. parse_txn_record hash_tag start_version resp.data_sets), s')
          ]
