-- ===== src/Lib.antt =====
-- Verification of sekas, a transactional key-value store that is distributed over groups of replicas.
--
-- A table is cut into shards, ranges of user keys. A group of replicas stores the shards that it holds in
-- one rocksdb column family, each version of a key as a pair. The commands of a group's leader read
-- snapshots of the column family, and answer with a write batch that raft replicates. A transaction
-- writes intents, versions of their own above all others, and commits or clears them. The client routes
-- requests by key and scans ranges shard by shard.
--
-- Files, and the code that they model:
--   Prelude      shared names; Prelude/Bytes byte strings in lexicographic order and words of bytes;
--                Prelude/Lists lists under native numbers; Prelude/Tests Boolean tests.
--   Api          the messages of src/api/sekas/server/v1, with the constructors of src/api/src. Api/Group: the
--                descriptor of a group and its epochs, of desc.rs and lib.rs.
--   Result       src/server/src/error.rs, the errors that the modelled code makes.
--   Rock         src/rock/src/num.rs and lexical.rs (`lexical_next_boundary`, `lexical_next`).
--   Schema       Shard: src/schema/src/shard.rs (`in_range`, `belong_to`, `start_key`, `end_key`). TxnKeys:
--                src/schema/src/system/keys.rs, the keys of a transaction's record.
--   Engine       src/server/src/engine/group.rs. Keys: `keys::mvcc_key` and `revert_mvcc_key`. Entry:
--                `MvccEntry` and the values. Snapshot: `Snapshot::next_mvcc_iterator` and
--                `next_mvcc_entry`, over the items that the rocksdb iterator has yet to yield. Group:
--                `GroupEngine::get`, `get_all_versions`, `snapshot`, `put`, `tombstone`, `delete`.
--                Rows: the column family as the list of the versions that it stores, in key order.
--                Rows/Apply: what rocksdb documents of a write batch, on the pairs and on the versions.
--   Eval         src/server/src/replica/eval. Cas: cas.rs. Get: cmd_get.rs. Txn: cmd_txn.rs. Write:
--                cmd_write.rs and cmd_ingest.rs. Scan: cmd_scan.rs. Latch: latch.rs, the block of one
--                key, and the latches that a request acquires; Latch/Resolve,
--                `RemoteLatchGuard::resolve_txn`. Forward: the check for a moving shard that the commands begin with.
--                Txn/AfterCommit joins the commands with the batch that rocksdb writes and the next read.
--   Client       src/client/src. Range: range.rs, the scan of a range. Error and Retry: error.rs and retry.rs.
--                Builder: `WriteBuilder` of txn.rs. TxnTable: txn_table.rs, the records of transactions;
--                TxnTable/Refines has the store that stands for the group of the table. Batch:
--                `WriteBatchContext` of txn.rs, the two phases of a commit; Batch/Rounds has the round as
--                one pass over the writes. Router: rpc/router.rs, the state that the root's events make.
--   Replica      src/server/src/replica/fsm/mod.rs. Config: the changes of replicas, simple and joint. Shards:
--                `apply_split_shard`, `apply_merge_shard`, `apply_moving_shard`. Fsm: `GroupStateMachine`,
--                with `apply_core_states` of src/server/src/engine/group.rs.
--   Parser       src/parser/src. Token and Rules: token.rs. Statement: parse.rs and ast.rs. Print and
--                RoundTrip: the text of a statement. Fuel: the end of the recursion.
--   Examples     the theorems applied to a small column family, requests and keys.
--
-- State and code: `GroupEngine` holds the shard descriptors and `seek`, which stands for rocksdb's
-- iterator from a key on; a predicate `Holds` says that it yields sorted rows, as rocksdb documents.
-- `await` points leave no trace in a command, since a command reads one snapshot; the resolution of an
-- intent is a parameter of the commands that need it. The latch of a key is a step relation, one step
-- for each critical section on its entry. The protobuf code of an intent is a parameter, `IntentCodec`,
-- with its round trip as a law; the clock is a parameter of the batch writes. A client's round of tasks
-- is a parameter too, `Batching`: it answers the requests in their order and says what became of the
-- world, so that whatever runs between the steps of a commit, its heartbeats among it, is a step of that
-- world. The replica's state machine keeps what is plugged apart from what the engine holds, and the
-- observer is what it was told last; what rocksdb returns for the write of a round is an argument.
--
-- Bounds: keys are lists of numbers, read as bytes where a theorem asks for it; versions are 64 bit
-- words. Additions wrap round as the code's do. Panics are an error that nothing catches. A loop
-- over a snapshot runs on as much fuel as the snapshot has items and a cached entry; the loop that
-- resolves the intents of others runs on fuel, with `none` where it would go on. The parser recurs
-- on `DEBUG` alone, on one unit of fuel more than the input has bytes, which is enough since each
-- `DEBUG` takes input. The retries of the transaction table run on fuel; the resolution of an
-- intent takes two rounds at most. In the retries, an answer that is not to be retried needs one
-- unit. `Cluster` holds what the transaction table calls: router, group client, clock and hash;
-- `Serves` says that the table's group answers each write as the write conditions of the server do.
-- The first phase of a commit runs on fuel, and a deadline in milliseconds gives enough of it; the task of
-- the second phase has three rounds. Epochs are 64 bit words, of which the theorems ask that none is near
-- the end.
--
-- Not modelled: raft and its log engine, copies of other projects' libraries under src/third, and
-- rocksdb, whose code is not of this repository; the etcd layer under src/layers; the snapshots of a
-- replica and the hub of its watchers; the controller that moves shards; the root and its allocator; the
-- stream of events to a router; the reads, scans and watches of a client's transaction; services, transport,
-- metrics and timing.
pub mod Prelude
pub mod Api
pub mod Result
pub mod Parser
pub mod Replica
pub mod Rock
pub mod Schema
pub mod Engine
pub mod Eval
pub mod Examples
pub mod Client
