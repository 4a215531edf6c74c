-- ===== src/Api.antt =====
-- The messages of api/sekas/server/v1/*.proto that the modelled code reads and writes, with the
-- constructors of api/src/{value,txn,write,desc}.rs.
pub mod Group
use sekv.Prelude.{ℕ, ◌≡◌, Option, none, some, List, Bool, true, false}
use sekv.Prelude.Bytes.{Bytes}

-- One version of a key; no content is a tombstone.
pub record Value : Type 0 where
  pub content : Option Bytes
  pub version : ℕ

pub record ValueSet : Type 0 where
  pub user_key : Bytes
  pub values : List Value

-- `Error::Forward` hands the request over to the group that a shard moves to.
pub record ForwardCtx : Type 0 where
  pub shard_id : ℕ
  pub dest_group_id : ℕ
  pub payloads : List ValueSet

-- `RangePartition`: an empty end is no bound.
pub record RangePartition : Type 0 where
  pub start : Bytes
  pub end : Bytes

pub record ShardDesc : Type 0 where
  pub id : ℕ
  pub table_id : ℕ
  pub range : Option RangePartition

-- `enum PutType`, `enum WriteConditionType`, in the order of their numbers
pub data PutType : Type 0 where
  put_none add_i64 nop : PutType

pub data WriteConditionType : Type 0 where
  expect_exists expect_not_exists expect_value : WriteConditionType
  expect_version expect_version_lt expect_version_le expect_version_gt expect_version_ge :
      WriteConditionType
  expect_starts_with expect_ends_with expect_slice expect_contains : WriteConditionType

-- A field of an enum's type holds its number.
pub record WriteCondition : Type 0 where
  pub type : ℕ
  pub value : Bytes
  pub version : ℕ
  pub begin : ℕ

pub record PutRequest : Type 0 where
  pub put_type : PutType
  pub ttl : ℕ
  pub key : Bytes
  pub value : Bytes
  pub conditions : List WriteCondition
  pub take_prev_value : Bool

pub record DeleteRequest : Type 0 where
  pub key : Bytes
  pub conditions : List WriteCondition
  pub take_prev_value : Bool

pub data WriteRequest : Type 0 where
  put_request : PutRequest → WriteRequest
  delete_request : DeleteRequest → WriteRequest

-- `WriteRequest::user_key` of api/src/write.rs
unfoldable pub user_key_of : WriteRequest → Bytes
user_key_of (put_request put) = put.key
user_key_of (delete_request del) = del.key

pub record WriteResponse : Type 0 where
  pub prev_value : Option Value

pub data TxnState : Type 0 where
  running aborted committed : TxnState

pub record TxnIntent : Type 0 where
  pub start_version : ℕ
  pub is_delete : Bool
  pub value : Option Bytes

-- api/src/txn.rs
unfoldable pub tombstone_intent : ℕ → TxnIntent
tombstone_intent start_version = record {
  start_version = start_version;
  is_delete = true;
  value = none;
}

unfoldable pub put_intent : ℕ → Option Bytes → TxnIntent
put_intent start_version value = record {
  start_version = start_version;
  is_delete = false;
  value = value;
}

-- The generated protobuf code of `TxnIntent`: what is encoded decodes to itself.
pub record IntentCodec : Type 0 where
  pub encode : TxnIntent → Bytes
  pub decode : Bytes → Option TxnIntent
  pub decode-encode : (intent : TxnIntent) → decode (encode intent) ≡ some intent

pub record MoveShardDesc : Type 0 where
  pub shard_desc : Option ShardDesc
  pub src_group_id : ℕ
  pub src_group_epoch : ℕ
  pub dest_group_id : ℕ
  pub dest_group_epoch : ℕ

-- `ExecCtx` of server/src/replica/mod.rs, as far as the commands read it
pub record ExecCtx : Type 0 where
  pub group_id : ℕ
  pub move_shard_desc : Option MoveShardDesc

pub record ShardGetRequest : Type 0 where
  pub shard_id : ℕ
  pub start_version : ℕ
  pub user_key : Bytes

pub record WriteIntentRequest : Type 0 where
  pub shard_id : ℕ
  pub start_version : ℕ
  pub write : Option WriteRequest

pub record CommitIntentRequest : Type 0 where
  pub shard_id : ℕ
  pub start_version : ℕ
  pub commit_version : ℕ
  pub user_key : Bytes

pub record ClearIntentRequest : Type 0 where
  pub shard_id : ℕ
  pub start_version : ℕ
  pub user_key : Bytes

pub record ShardWriteRequest : Type 0 where
  pub shard_id : ℕ
  pub deletes : List DeleteRequest
  pub puts : List PutRequest

pub record ShardWriteResponse : Type 0 where
  pub deletes : List WriteResponse
  pub puts : List WriteResponse

pub record ShardScanRequest : Type 0 where
  pub shard_id : ℕ
  pub start_version : ℕ
  pub limit : ℕ
  pub limit_bytes : ℕ
  pub exclude_start_key : Bool
  pub exclude_end_key : Bool
  pub prefix : Option Bytes
  pub start_key : Option Bytes
  pub end_key : Option Bytes
  pub include_raw_data : Bool
  pub ignore_txn_intent : Bool
  pub allow_scan_moving_shard : Bool

pub record ShardScanResponse : Type 0 where
  pub data_sets : List ValueSet
  pub has_more : Bool
