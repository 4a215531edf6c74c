-- ===== src/Eval/Scan.antt =====
-- server/src/replica/eval/cmd_scan.rs: a scan of a shard, and the merge of the scans of the two groups
-- that a moving shard stands in. `resolve` is `LatchManager::resolve_txn`.
pub mod Merge
pub mod Bounds
pub mod Limits
use sekv.Prelude.{
  ℕ, zero, suc, ◌+◌, Bool, true, false, not, ◌&&◌, ◌||◌, Option, none, some, List, [], ◌∷◌, ◌++◌,
  length, ltb, leb, ◌==◌, if◌then◌else◌,
}
use Prim.Native.Nat.Ordering.{lt, eq, gt}
use sekv.Prelude.Bytes.{Bytes, cmp, lt_bytes, eq_bytes}
use sekv.Api.{
  Value, ValueSet, IntentCodec, MoveShardDesc, ExecCtx, ShardScanRequest, ShardScanResponse,
}
use sekv.Result.{Result, ok, err, invalid_data, decode_error, panicked, forward, ◌>>=◌, ok_or}
use sekv.Engine.Entry.{MvccEntry, entry_version, entry_value}
use sekv.Engine.Snapshot.{
  SnapshotMode, of_prefix, from_start, Snapshot, next_mvcc_iterator, next_mvcc_entry,
}
use sekv.Engine.Group.{GroupEngine, snapshot}
use sekv.Eval.Get.{txn_intent_version, Resolve}

-- The `loop` of `merge_scan_response`: the heads of the lists are `target_next` and `source_next`.
unfoldable pub merge : Bool → List ValueSet → List ValueSet → List ValueSet
merge target_has_more [] [] = []
merge target_has_more [] (y ∷ source) = elim target_has_more [
  | true ↦ []
  | false ↦ y ∷ merge false [] source
]
merge target_has_more (x ∷ target) [] = x ∷ merge target_has_more target []
merge target_has_more (x ∷ target) (y ∷ source) = elim (cmp x.user_key y.user_key) [
  | lt ↦ x ∷ merge target_has_more target (y ∷ source)
  | eq ↦ x ∷ merge target_has_more target source
  | gt ↦ y ∷ merge target_has_more (x ∷ target) source
]

-- The target group's value sets win over the source group's.
unfoldable pub merge_scan_response : ShardScanResponse → ShardScanResponse → ShardScanResponse
unfolding merge
merge_scan_response target source = record {
  data_sets = merge target.has_more target.data_sets source.data_sets;
  has_more = target.has_more || source.has_more;
}

abbrev is_equals : Option Bytes → Bytes → Bool
is_equals none user_key = false
is_equals (some target_key) user_key = eq_bytes target_key user_key

unfoldable pub is_exceeds : Option Bytes → Bytes → Bool
is_exceeds none user_key = false
is_exceeds (some target_key) user_key = lt_bytes target_key user_key

unfoldable pub is_exclude_boundary : ShardScanRequest → Bytes → Bool
is_exclude_boundary req user_key =
    (req.exclude_start_key && is_equals req.start_key user_key)
    || (req.exclude_end_key && is_equals req.end_key user_key)

-- `total_bytes` and `values` after a version was pushed; a tombstone only shows in raw data.
abbrev pub push_version : Bool → List Value → ℕ → Option Bytes × ℕ → List Value × ℕ
push_version include_raw_data values total_bytes (some value, version) =
    (values ++ record { content = some value; version = version } ∷ [], total_bytes + length value)
push_version include_raw_data values total_bytes (none, version) = (
  if include_raw_data then values ++ record { content = none; version = version } ∷ [] else values,
  total_bytes,
)

module _ (codec : IntentCodec) (resolve : Resolve) (req : ShardScanRequest) where
  unfoldable pub resolve_txn : Bytes → Bytes → Result (Option (Option Bytes × ℕ))
  resolve_txn user_key encoded_intent_value = do
    intent ← ok_or (codec.decode encoded_intent_value) decode_error
    if ltb req.start_version intent.start_version then ok none else (do
      resolved ← resolve req.shard_id user_key req.start_version intent.start_version
      elim resolved [
        | none ↦ ok none
        | some v ↦
            ok (if ltb req.start_version v.version then none else some (v.content, v.version))
      ])

  -- the value and the version of an entry; none is `continue`
  unfoldable pub read_version : MvccEntry → Result (Option (Option Bytes × ℕ))
  read_version entry =
      if entry_version entry == txn_intent_version && not req.ignore_txn_intent
      then (do
        content ← entry_value entry
        intent_value ← ok_or content invalid_data
        resolve_txn entry.user_key intent_value)
      else if ltb req.start_version (entry_version entry)
      then ok none
      else (do value ← entry_value entry; ok (some (value, entry_version entry)))

  abbrev pub Entries : Type 0
  Entries = Result (Option (List Value × ℕ) × Snapshot)

  -- a round behind the version of its entry; `continue` runs the rounds that follow
  unfoldable pub version_round :
      (List Value → ℕ → Entries)
      → Snapshot
      → List Value
      → ℕ
      → Result (Option (Option Bytes × ℕ))
      → Entries
  version_round continue s values total_bytes (err e) = err e
  version_round continue s values total_bytes (ok none) = continue values total_bytes
  version_round continue s values total_bytes (ok (some version)) =
      let (values', bytes') = push_version req.include_raw_data values total_bytes version in
      if req.include_raw_data then continue values' bytes' else ok (some (values', bytes'), s)

  -- A key that is an excluded boundary has no values.
  unfoldable pub entry_round :
      (List Value → ℕ → Entries) → Option (Result MvccEntry) × Snapshot → List Value → ℕ → Entries
  unfolding version_round
  entry_round continue (none, s) values total_bytes = ok (some (values, total_bytes), s)
  entry_round continue (some (err e), s) values total_bytes = err e
  entry_round continue (some (ok entry), s) values total_bytes =
      if is_exclude_boundary req entry.user_key
      then ok (none, s)
      else version_round continue s values total_bytes (read_version entry)

  -- the `for entry in &mut mvcc_iter` loop of `scan_value_set`
  unfoldable pub scan_entries : ℕ → Snapshot → List Value → ℕ → Entries
  unfolding entry_round
  scan_entries zero s values total_bytes = ok (some (values, total_bytes), s)
  scan_entries (suc fuel) s values total_bytes =
      let next = next_mvcc_entry s in
      entry_round (λ values' bytes'. scan_entries fuel next.1 values' bytes') next values
        total_bytes

  -- `MvccIterator::user_key` unwraps the current key.
  abbrev pub value_set_of :
      Option (List Value × ℕ) × Snapshot → Result (Option (ValueSet × ℕ) × Snapshot)
  value_set_of (none, s) = ok (none, s)
  value_set_of (some ([], total_bytes), s) = ok (none, s)
  value_set_of (some (v ∷ values, total_bytes), s) = do
    user_key ← ok_or s.core.current_key panicked
    ok (
      some (record { user_key = user_key; values = v ∷ values }, total_bytes + length user_key),
      s,
    )

  unfoldable pub scan_value_set : Snapshot → Result (Option (ValueSet × ℕ) × Snapshot)
  unfolding scan_entries
  scan_value_set s = do r ← scan_entries (suc (suc (length s.core.db_iter))) s [] 0; value_set_of r

  abbrev pub reaches_limit : List ValueSet → ℕ → Bool
  reaches_limit sets total_bytes =
      (not (req.limit == 0) && req.limit == length sets)
      || (not (req.limit_bytes == 0) && leb req.limit_bytes total_bytes)

  abbrev response : List ValueSet → Bool → ShardScanResponse
  response sets has_more = record { data_sets = sets; has_more = has_more }

  -- a round behind the value set of its key
  unfoldable pub set_round :
      (Snapshot → List ValueSet → ℕ → Result ShardScanResponse)
      → List ValueSet
      → ℕ
      → Result (Option (ValueSet × ℕ) × Snapshot)
      → Result ShardScanResponse
  set_round continue sets total_bytes (err e) = err e
  set_round continue sets total_bytes (ok (none, s)) = continue s sets total_bytes
  set_round continue sets total_bytes (ok (some (value_set, value_bytes), s)) =
      let sets' = sets ++ value_set ∷ [] in
      if reaches_limit sets' (total_bytes + value_bytes)
      then ok (response sets' true)
      else continue s sets' (total_bytes + value_bytes)

  unfoldable pub key_round :
      (Snapshot → List ValueSet → ℕ → Result ShardScanResponse)
      → Option (Result (Unit {0})) × Snapshot
      → List ValueSet
      → ℕ
      → Result ShardScanResponse
  unfolding set_round is_exceeds
  key_round continue (none, s) sets total_bytes = ok (response sets false)
  key_round continue (some (err e), s) sets total_bytes = err e
  key_round continue (some (ok u), s) sets total_bytes = elim s.core.current_key [
    | none ↦ err panicked
    | some user_key ↦
        if is_exceeds req.end_key user_key
        then ok (response sets false)
        else set_round continue sets total_bytes (scan_value_set s)
  ]

  -- the `while let Some(mvcc_iter) = snapshot.next()` loop
  unfoldable pub scan_rounds : ℕ → Snapshot → List ValueSet → ℕ → Result ShardScanResponse
  unfolding key_round
  scan_rounds zero s sets total_bytes = ok (response sets false)
  scan_rounds (suc fuel) s sets total_bytes =
      key_round (λ s' sets' bytes'. scan_rounds fuel s' sets' bytes') (next_mvcc_iterator s) sets
        total_bytes

  -- Each round takes an item or the cached entry.
  unfoldable pub scan_inner : Snapshot → Result ShardScanResponse
  unfolding scan_rounds
  scan_inner s = scan_rounds (suc (suc (length s.core.db_iter))) s [] 0

abbrev has_prefix : Option Bytes → Bool
has_prefix none = false
has_prefix (some prefix) = true

abbrev pub mode_of : ShardScanRequest → SnapshotMode
mode_of req = elim req.prefix [ none ↦ from_start req.start_key | some prefix ↦ of_prefix prefix ]

-- the request as `scan` changes it
abbrev pub scanned : ShardScanRequest → ShardScanRequest
scanned req =
    if has_prefix req.prefix
    then record req { exclude_end_key = false; exclude_start_key = false }
    else req

-- The group that a shard moves to, out of this one; `get_shard_id` unwraps the descriptor.
unfoldable pub moving_out : ExecCtx → ShardScanRequest → Result (Option ℕ)
moving_out exec_ctx req = elim exec_ctx.move_shard_desc [
  | none ↦ ok none
  | some desc ↦ do
    shard ← ok_or desc.shard_desc panicked
    ok (
        if shard.id == req.shard_id && desc.src_group_id == exec_ctx.group_id
        then some desc.dest_group_id
        else none)
]

abbrev pub scan_snapshot :
    IntentCodec → Resolve → GroupEngine → ShardScanRequest → Result ShardScanResponse
scan_snapshot codec resolve engine req = do
  s ← snapshot engine req.shard_id (mode_of req)
  scan_inner codec resolve (scanned req) s

unfoldable pub scan :
    IntentCodec → Resolve → ExecCtx → GroupEngine → ShardScanRequest → Result ShardScanResponse
unfolding moving_out
scan codec resolve exec_ctx engine req =
    if req.allow_scan_moving_shard then scan_snapshot codec resolve engine req else (do
      moving ← moving_out exec_ctx req
      elim moving [
        | none ↦ scan_snapshot codec resolve engine req
        | some dest_group_id ↦ err (
            forward
              (record { shard_id = req.shard_id; dest_group_id = dest_group_id; payloads = [] }))
      ])
