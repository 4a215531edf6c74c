-- ===== src/Client/Range.antt =====
-- client/src/range.rs: the scan of a range, shard by shard. The channel to the reader is the list of
-- the batches sent; `responses` are what the group client returns for the requests, in order, and
-- `listening` says whether the reader still listens.
pub mod Keys
use sekv.Prelude.{
  ℕ, ◌+◌, Bool, true, false, ◌||◌, Option, none, some, List, [], ◌∷◌, ◌++◌, if◌then◌else◌,
}
use sekv.Prelude.Bytes.{Bytes, is_empty, le_bytes}
use sekv.Api.{ValueSet, ShardDesc, ShardScanRequest, ShardScanResponse}
use sekv.Result.{Result, ok, err}
use sekv.Rock.Lexical.{lexical_next_boundary}

pub data Range : Type 0 where
  prefix : Bytes → Range
  range : Option Bytes → Option Bytes → Range

pub data ScannerState : Type 0 where
  normal finished cancelled : ScannerState

pub record RangeScanner : Type 0 where
  pub sent : List (List ValueSet)
  pub state : ScannerState
  pub version : ℕ
  pub limit : ℕ
  pub limit_bytes : ℕ
  pub cursor_key : Bytes
  pub end_key : Option Bytes
  pub num_scanned : ℕ

abbrev or_empty : Option Bytes → Bytes
or_empty none = []
or_empty (some b) = b

unfoldable pub extract_request_range : Range → Bytes × Option Bytes
extract_request_range (prefix p) = (p, some (lexical_next_boundary p))
extract_request_range (range begin end) = (or_empty begin, end)

unfoldable pub is_entire_range_scanned : Option Bytes → Bytes → Bool
is_entire_range_scanned none shard_end = is_empty shard_end
is_entire_range_scanned (some range_end) shard_end =
    le_bytes range_end shard_end || is_empty shard_end

-- the request of one round of `scan_shard`
unfoldable pub scan_request : RangeScanner → ShardDesc → ShardScanRequest
scan_request scanner shard = record {
  shard_id = shard.id;
  start_version = scanner.version;
  limit = scanner.limit;
  limit_bytes = scanner.limit_bytes;
  exclude_start_key = false;
  exclude_end_key = true;
  prefix = none;
  start_key = some scanner.cursor_key;
  end_key = scanner.end_key;
  include_raw_data = false;
  ignore_txn_intent = false;
  allow_scan_moving_shard = false;
}

-- the cursor after a batch
unfoldable pub next_cursor : Bytes → List ValueSet → Bytes
next_cursor cursor [] = cursor
next_cursor cursor (x ∷ []) = lexical_next_boundary x.user_key
next_cursor cursor (x ∷ y ∷ sets) = next_cursor cursor (y ∷ sets)

-- The `loop` of `scan_shard`: whether it succeeds, and the scanner that it leaves; `none` where it
-- still waits for a response.
unfoldable pub scan_shard :
    Bool
    → RangeScanner
    → List (Result ShardScanResponse)
    → Option (Result (Unit {0}) × RangeScanner)
unfolding next_cursor
scan_shard listening scanner [] = none
scan_shard listening scanner (err e ∷ responses) = some (err e, scanner)
scan_shard listening scanner (ok resp ∷ responses) =
    let cursor = next_cursor scanner.cursor_key resp.data_sets in
    let rest =
      scan_shard listening
        (record scanner {
          sent = scanner.sent ++ resp.data_sets ∷ [];
          cursor_key = cursor;
          num_scanned = scanner.num_scanned + 1;
        })
        responses in
    if listening
    then (if resp.has_more
        then rest
        else some (
          ok tt,
          record scanner {
            sent = scanner.sent ++ resp.data_sets ∷ [];
            cursor_key = cursor;
            num_scanned = scanner.num_scanned + 1;
          },
        ))
    else some (ok tt, record scanner { state = cancelled; cursor_key = cursor })

-- What `scan_inner` does when a shard was scanned: the scan is finished, or goes on at its end.
unfoldable pub after_shard : RangeScanner → Bytes → RangeScanner
unfolding is_entire_range_scanned
after_shard scanner shard_end =
    if is_entire_range_scanned scanner.end_key shard_end
    then record scanner { state = finished }
    else record scanner { cursor_key = shard_end }
