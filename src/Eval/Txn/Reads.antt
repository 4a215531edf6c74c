-- ===== src/Eval/Txn/Reads.antt =====
-- What the transaction commands read from a column family: the intent of a key, and the newest
-- committed version behind it.
use sekv.Prelude.{
  ℕ, ◌≡◌, refl, ◌≢◌, true, Option, none, some, List, [], ◌∷◌, map, arith, All, ◌==◌, if◌then◌else◌,
}
use sekv.Prelude.Bytes.{Bytes, eq_bytes, eq_bytes_iff}
use sekv.Api.{Value, TxnIntent, IntentCodec, ShardDesc}
use sekv.Result.{Result, ok, err, invalid_data, decode_error, ◌>>=◌, ok_or}
use sekv.Engine.Keys.{raw}
use sekv.Engine.Snapshot.{SnapshotRange, target, Snapshot, next_mvcc_iterator, next_mvcc_entry}
use sekv.Engine.Snapshot.Steps.{
  state, next_mvcc_entry-cached, next_mvcc_entry-end, next_mvcc_entry-row,
  next_mvcc_iterator-target, next_mvcc_iterator-target_end,
}
use sekv.Engine.Rows.{
  Row, IsRow, item, entry, value, to_value-row, entry_version-row, entry_value-row,
}
use sekv.Engine.Rows.Seek.{rows_from, versions, leading, leading-rows_from}
use sekv.Engine.Group.{GroupEngine}
use sekv.Engine.Group.Reads.{Holds, snapshot-target, valid_from, first, get-eq-first_version}
use sekv.Eval.Get.{txn_intent_version}
use sekv.Eval.Txn.{
  next_value, first_entry, read_intent_and_next_key, own_intent, read_target_intent,
}

module _ (codec : IntentCodec) (shard_id : ℕ) (key : Bytes) where
  -- the intent that a version holds
  abbrev pub intent_of : Option Bytes → Result TxnIntent
  intent_of content = do value ← ok_or content invalid_data; ok_or (codec.decode value) decode_error

  -- The intent, which is the newest version if there is one, and the version behind it.
  abbrev pub intent_and_next : List Row → Result (Option TxnIntent × Option Value)
  intent_and_next [] = ok (none, none)
  intent_and_next (r ∷ rows) =
      if r.version == txn_intent_version
      then (do intent ← intent_of r.content; ok (some intent, first rows))
      else ok (none, some (value r))

  next_value-rows :
      (t : ℕ) (rng : Option SnapshotRange) (rows : List Row)
      → All IsRow rows
      → next_value codec shard_id key
          (next_mvcc_entry (state t rng (some key) none (map item rows))).0
        ≡ ok (first (leading t key rows))
  unfolding leading
  next_value-rows t rng [] h = ground (arith, next_mvcc_entry-end t rng key)
  next_value-rows t rng (r ∷ rows) h =
      ground (arith, next_mvcc_entry-row t rng key r (map item rows), to_value-row r h.0)

  first_entry-rows :
      (t : ℕ) (r : Row) (rows : List Row)
      → All IsRow (r ∷ rows)
      → eq_bytes key r.key ≡ true
      → first_entry codec shard_id key (
          next_mvcc_entry
            (state t (some (target key)) (some r.key) (some (entry r)) (map item rows)))
        ≡ intent_and_next (r ∷ leading t key rows)
  first_entry-rows t r rows h e =
      let same : key ≡ r.key = (eq_bytes_iff key r.key).0 e in
      rw (← same) (
        ground (
          arith,
          next_mvcc_entry-cached t (some (target key)) key (entry r) (map item rows) e,
          entry_version-row r h.0,
          entry_value-row r,
          to_value-row r h.0,
          next_value-rows t (some (target key)) rows h.1,
        ))

  abbrev read_pair : Snapshot → Result (Option TxnIntent × Option Value)
  read_pair s =
      let (r, s') = next_mvcc_iterator s in
      elim r [
        | none ↦ ok (none, none)
        | some (err e) ↦ err e
        | some (ok u) ↦ first_entry codec shard_id key (next_mvcc_entry s')
      ]

  read_pair-rows :
      (t : ℕ) (rows : List Row)
      → All IsRow rows
      → read_pair (state t (some (target key)) none none (map item rows))
        ≡ intent_and_next (leading t key rows)
  unfolding leading
  read_pair-rows t [] h = ground (arith, next_mvcc_iterator-target_end t key)
  read_pair-rows t (r ∷ rows) h =
      ground (arith, next_mvcc_iterator-target t key r (map item rows), first_entry-rows t r rows h)

  abbrev pub target_intent : ℕ → List Row → Result (Option TxnIntent)
  target_intent start_version [] = ok none
  target_intent start_version (r ∷ rows) =
      if r.version == txn_intent_version
      then (do
        intent ← intent_of r.content
        ok (if intent.start_version == start_version then some intent else none))
      else ok none

module _ (codec : IntentCodec) (engine : GroupEngine) (rows : List Row) (shard_id : ℕ)
    (desc : ShardDesc) (key : Bytes) (holds : Holds engine rows)
    (known : engine.shard_descs shard_id ≡ some desc) (nonempty : key ≢ []) where
  -- `read_intent_and_next_key` returns the intent of the key and the newest committed version, of a key
  -- that has an intent, and otherwise the newest version alone. The column family holds the rows in order.
  pub read_intent_and_next_key-eq :
      read_intent_and_next_key codec shard_id key engine
      ≡ intent_and_next codec shard_id key (versions desc.table_id key rows)
  unfolding read_intent_and_next_key
  read_intent_and_next_key-eq = ground (
    arith,
    snapshot-target engine rows shard_id desc key holds known nonempty,
    read_pair-rows codec shard_id key desc.table_id (rows_from (raw desc.table_id key) rows)
        (valid_from engine rows shard_id desc key holds known nonempty),
    leading-rows_from desc.table_id key nonempty rows holds.valid holds.sorted,
  )

  pub read_target_intent-eq :
      (start_version : ℕ)
      → read_target_intent codec shard_id key engine start_version
        ≡ target_intent codec shard_id key start_version (versions desc.table_id key rows)
  unfolding read_target_intent
  read_target_intent-eq start_version =
      rw
        (
          (get-eq-first_version engine rows shard_id desc key holds known nonempty).0,
          read_target_intent,
        )
        (go (versions desc.table_id key rows))
    where
      go :
          (found : List Row)
          → (elim (first found) as (λ _. Result (Option TxnIntent)) [
            | none ↦ ok none
            | some v ↦ own_intent codec shard_id key start_version v
          ])
            ≡ target_intent codec shard_id key start_version found
      go [] = refl
      go (r ∷ found) = ground arith
