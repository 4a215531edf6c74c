-- ===== src/Examples/Range.antt =====
-- A scan of the rows of `Store`.
use sekv.Prelude.{◌≡◌, refl, ◌⊎◌, ◌≤◌, true, false, none, some, [], ◌∷◌, All, length}
use sekv.Prelude.Bytes.{cmp, eq_bytes, starts_with, to_be_bytes, to_le_bytes, from_be_bytes}
use sekv.Api.{ShardScanRequest, ShardScanResponse, put_intent}
use sekv.Result.{ok}
use sekv.Schema.Shard.{in_range, start_key, end_key}
use sekv.Engine.Keys.{mvcc_key, raw, encode_groups, pad, group_size, decode_groups, revert_mvcc_key}
use sekv.Engine.Entry.{new_entry, entry_version, value_of}
use sekv.Engine.Rows.Seek.{rows_from}
use sekv.Engine.Snapshot.{
  is_valid_key, snapshot_range, new_snapshot, next_entry, is_current_key, cached, find_key,
  next_mvcc_iterator, find_entry, next_mvcc_entry,
}
use sekv.Engine.Group.{shard_desc, seek_key, snapshot}
use sekv.Eval.Get.{Resolve}
use sekv.Eval.Scan.{
  is_exceeds, is_exclude_boundary, resolve_txn, read_version, version_round, entry_round,
  scan_entries, scan_value_set, set_round, key_round, scan_rounds, scan_inner, scan,
}
use sekv.Eval.Scan.Bounds.{IsVisibleSet}
use sekv.Eval.Scan.Limits.{scan-IsVisible}
use sekv.Examples.Store.{codec, key_b, ctx, engine}

-- The transaction of the intent committed at 40.
abbrev resolve : Resolve
resolve shard_id key start_version intent_version =
    ok (some (record { content = some (9 ∷ []); version = 40 }))

abbrev req : ShardScanRequest
req = record {
  shard_id = 1;
  start_version = 50;
  limit = 1;
  limit_bytes = 0;
  exclude_start_key = false;
  exclude_end_key = false;
  prefix = none;
  start_key = none;
  end_key = none;
  include_raw_data = false;
  ignore_txn_intent = false;
  allow_scan_moving_shard = true;
}

-- The tombstone of "a" does not show.
abbrev resp : ShardScanResponse
resp = record {
  data_sets =
      record { user_key = key_b; values = record { content = some (9 ∷ []); version = 40 } ∷ [] }
      ∷ [];
  has_more = true;
}

answered : scan codec resolve ctx engine req ≡ ok resp
unfolding scan scan_inner scan_rounds key_round set_round scan_value_set scan_entries entry_round
    version_round read_version resolve_txn is_exceeds is_exclude_boundary snapshot new_snapshot
    seek_key shard_desc snapshot_range is_valid_key in_range start_key end_key next_entry
    is_current_key cached find_key next_mvcc_iterator find_entry next_mvcc_entry new_entry
    entry_version value_of mvcc_key raw encode_groups pad group_size decode_groups revert_mvcc_key
    rows_from cmp eq_bytes starts_with to_be_bytes to_le_bytes from_be_bytes put_intent
answered = refl

scan-IsVisible_example :
    All (IsVisibleSet 50) resp.data_sets × ((req.limit ≡ 0) ⊎ (length resp.data_sets ≤ req.limit))
scan-IsVisible_example = scan-IsVisible codec resolve ctx engine req resp answered
