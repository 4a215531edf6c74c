-- ===== src/Examples/TxnTable.antt =====
-- A table of transactions over a store in memory, with the transaction that started at 30.
use sekv.Prelude.{ℕ, ◌+◌, ◌≡◌, refl, Option, none, some, List, [], ◌∷◌, arith}
use sekv.Api.{ShardDesc, ShardWriteResponse, PutRequest, committed}
use sekv.Client.Error.{ClientError, ClientResult, ok, err}
use sekv.Client.Retry.{RetryState, force_retry}
use sekv.Client.TxnTable.{
  Cluster, GroupRequest, write_request, scan_request, GroupResponse, write_response, other_response,
}
use sekv.Client.TxnTable.Record.{
  TxnRecord, parse_txn_record, value_sets, parse_txn_record-value_sets,
}
use sekv.Client.TxnTable.Refines.{Store, Serves, refusal, put_all}
use sekv.Client.TxnTable.Refines.Sends.{begin_op, heartbeat_op, commit_op, abort_op}
use sekv.Client.TxnTable.Refines.Decided.{Event, run_all, run_all-Exclusive, Exclusive}

abbrev shard : ShardDesc
shard = record { id = 2; table_id = 3; range = none }

abbrev resp : ShardWriteResponse
resp = record { deletes = []; puts = [] }

abbrev answer : List PutRequest → Store → Option ClientError → ClientResult GroupResponse × Store
answer puts store none = (ok (write_response resp), put_all 7 puts store)
answer puts store (some e) = (err e, store)

abbrev request : Store → ℕ → GroupRequest → ClientResult GroupResponse × Store
request store group (write_request req) = answer req.puts store (refusal 0 req.puts store)
request store group (scan_request req) = (ok other_response, store)

abbrev cluster : Cluster Store
cluster = record {
  find_shard = λ store table_id key. ok (1, shard);
  request = request;
  now = λ store. 0;
  sleep = λ store interval. store;
  checked_add = λ a b. some (a + b);
  timestamp_millis = λ store. 1000;
  hash_tag = λ start_version. 5;
  txn_table_id = 3;
  txn_max_version = 99;
}

serves : Serves cluster (λ store. store)
serves = record {
  group = λ s. 1;
  shard = λ s. shard;
  found = λ s hash_tag. refl;
  after = λ s puts. (answer puts s (refusal 0 puts s)).1;
  resp = λ s puts. resp;
  version = λ s puts. 7;
  written = λ s puts h. (rw h refl, λ key. rw h refl);
  refused = λ s puts e h. (rw h refl, λ key. rw h refl);
}

abbrev empty : Store
empty key = none

run_all-Exclusive_example :
    (events : List Event) × (s : Store) × (run_all cluster none 0 30
        (begin_op ∷ heartbeat_op ∷ commit_op 40 ∷ abort_op ∷ [])
        empty
      ≡ some (events, s))
    × Exclusive events
run_all-Exclusive_example =
    run_all-Exclusive cluster none 0 30 (λ store. store) serves
      (begin_op ∷ heartbeat_op ∷ commit_op 40 ∷ abort_op ∷ []) none empty refl

abbrev txn_record : TxnRecord
txn_record = record {
  start_version = 30;
  state = committed;
  heartbeat = 1000;
  commit_version = some 40;
}

parse_txn_record-value_sets_example :
    parse_txn_record 5 30 (value_sets 5 txn_record 7) ≡ ok (some txn_record)
parse_txn_record-value_sets_example =
    parse_txn_record-value_sets 5 txn_record 7 (omega arith) (omega arith)

abbrev waited : RetryState
waited = record { interval_ms = 2048; deadline = some 900 }

waits : force_retry 500 waited ≡ ok (400, record { interval_ms = 3000; deadline = some 900 })
unfolding force_retry
waits = refl
