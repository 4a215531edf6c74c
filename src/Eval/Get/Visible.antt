-- ===== src/Eval/Get/Visible.antt =====
-- What a read sees of the versions of a key.
use sekv.Prelude.{
  ℕ, zero, suc, ◌≤◌, ◌<◌, ◌≡◌, refl, fun_ext, true, Option, none, some, List, [], ◌∷◌, map, arith,
  All, length, leb, ◌==◌, if◌then◌else◌,
}
use sekv.Prelude.Bytes.{Bytes, eq_bytes, eq_bytes_iff}
use sekv.Api.{Value, IntentCodec}
use sekv.Result.{Result, ok, err, invalid_data, decode_error, ◌>>=◌, ok_or}
use sekv.Engine.Keys.{u64_max}
use sekv.Engine.Snapshot.{SnapshotRange, target, Snapshot, next_mvcc_iterator}
use sekv.Engine.Snapshot.Steps.{
  state, next_mvcc_entry-cached, next_mvcc_entry-end, next_mvcc_entry-row,
  next_mvcc_iterator-target, next_mvcc_iterator-target_end,
}
use sekv.Engine.Rows.{
  Row, IsRow, item, entry, value, to_value-row, entry_version-row, entry_value-row,
}
use sekv.Engine.Rows.Seek.{leading, IsDescending}
use sekv.Engine.Group.Reads.{length-map-item}
use sekv.Eval.Get.{txn_intent_version, Resolve, visible, read_entry, read_entries}

-- the newest committed version that is not newer than the reader
abbrev pub newest_visible : ℕ → List Row → Option Value
newest_visible start_version [] = none
newest_visible start_version (r ∷ rows) =
    let rest = newest_visible start_version rows in
    if leb r.version start_version then some (value r) else rest

-- The value of a transaction, if it committed no later than the reader.
abbrev pub in_time : ℕ → Option Value → Option Value
in_time start_version none = none
in_time start_version (some v) =
    if leb v.version start_version
    then some (record { content = v.content; version = v.version })
    else none

visible-eq-in_time : (start_version : ℕ) → visible start_version ≡ in_time start_version
visible-eq-in_time start_version = fun_ext by_value
  where
    by_value : (v : Option Value) → visible start_version v ≡ in_time start_version v
    by_value none = refl
    by_value (some v) = ground arith

module _ (codec : IntentCodec) (resolve : Resolve) (shard_id : ℕ) (key : Bytes)
    (start_version : ℕ) where
  -- An intent shows what it resolves to, if it began in time and was committed in time.
  abbrev pub resolved_intent : Option Bytes → Result (Option Value)
  resolved_intent content = do
    value ← ok_or content invalid_data
    intent ← ok_or (codec.decode value) decode_error
    if leb intent.start_version start_version
        then (do
          resolved ← resolve shard_id key start_version intent.start_version
          ok (in_time start_version resolved))
        else ok none

  abbrev pub or_older : List Row → Result (Option Value) → Result (Option Value)
  or_older rows (err e) = err e
  or_older rows (ok (some v)) = ok (some v)
  or_older rows (ok none) = ok (newest_visible start_version rows)

  -- The intent, which is the newest version if there is one, comes before the committed versions.
  abbrev pub visible_version : List Row → Result (Option Value)
  visible_version [] = ok none
  visible_version (r ∷ rows) =
      if r.version == txn_intent_version
      then or_older rows (resolved_intent r.content)
      else ok (newest_visible start_version (r ∷ rows))

  abbrev row_read : Row → Result (Option Value)
  row_read r =
      if r.version == txn_intent_version
      then resolved_intent r.content
      else ok (if leb r.version start_version then some (value r) else none)

  read_entry-row :
      (r : Row)
      → IsRow r
      → read_entry codec resolve shard_id key start_version (entry r) ≡ row_read r
  unfolding read_entry
  read_entry-row r h = ground (
    arith,
    entry_version-row r h,
    entry_value-row r,
    to_value-row r h,
    visible-eq-in_time start_version,
  )

  pub read_rows : List Row → Result (Option Value)
  read_rows [] = ok none
  read_rows (r ∷ rows) =
      let rest = read_rows rows in
      elim (row_read r) [ err e ↦ err e | ok (some v) ↦ ok (some v) | ok none ↦ rest ]

  read_entries-rows :
      (t : ℕ) (rng : Option SnapshotRange) (fuel : ℕ) (rows : List Row)
      → length rows < fuel
      → All IsRow rows
      → read_entries codec resolve shard_id key start_version fuel
          (state t rng (some key) none (map item rows))
        ≡ read_rows (leading t key rows)
  unfolding read_entries leading read_rows
  read_entries-rows t rng zero rows f h = absurd (omega arith)
  read_entries-rows t rng (suc fuel) [] f h = ground (arith, next_mvcc_entry-end t rng key)
  read_entries-rows t rng (suc fuel) (r ∷ rows) f h = ground (
    arith,
    next_mvcc_entry-row t rng key r (map item rows),
    read_entry-row r h.0,
    read_entries-rows t rng fuel rows (omega arith) h.1,
  )

  read_entries-first :
      (t : ℕ) (r : Row) (rows : List Row)
      → All IsRow (r ∷ rows)
      → eq_bytes key r.key ≡ true
      → read_entries codec resolve shard_id key start_version
          (suc (suc (length (map item rows))))
          (state t (some (target key)) (some r.key) (some (entry r)) (map item rows))
        ≡ read_rows (r ∷ leading t key rows)
  unfolding read_entries read_rows
  read_entries-first t r rows h e =
      let same : key ≡ r.key = (eq_bytes_iff key r.key).0 e in
      rw (← same) (
        ground (
          arith,
          next_mvcc_entry-cached t (some (target key)) key (entry r) (map item rows) e,
          read_entry-row r h.0,
          read_entries-rows t (some (target key)) (suc (length (map item rows))) rows
              (omega (arith, length-map-item rows)) h.1,
        ))

  abbrev pub read_from : Snapshot → Result (Option Value)
  read_from s =
      let (r, s') = next_mvcc_iterator s in
      elim r [
        | none ↦ ok none
        | some (err e) ↦ err e
        | some (ok u) ↦
            read_entries codec resolve shard_id key start_version
              (suc (suc (length s'.core.db_iter))) s'
      ]

  pub read_from-rows :
      (t : ℕ) (rows : List Row)
      → All IsRow rows
      → read_from (state t (some (target key)) none none (map item rows))
        ≡ read_rows (leading t key rows)
  unfolding leading read_rows
  read_from-rows t [] h = ground (arith, next_mvcc_iterator-target_end t key)
  read_from-rows t (r ∷ rows) h =
      ground
        (arith, next_mvcc_iterator-target t key r (map item rows), read_entries-first t r rows h)

  -- Below the newest version there is no intent.
  read_rows-older :
      (n : ℕ) (rows : List Row)
      → n ≤ u64_max
      → All (λ r. r.version < n) rows
      → read_rows rows ≡ ok (newest_visible start_version rows)
  unfolding read_rows
  read_rows-older n [] h a = refl
  read_rows-older n (r ∷ rows) h a = ground (arith, read_rows-older n rows h a.1)

  pub read_rows-visible_version :
      (rows : List Row)
      → All IsRow rows
      → IsDescending rows
      → start_version < txn_intent_version
      → read_rows rows ≡ visible_version rows
  unfolding read_rows
  read_rows-visible_version [] h d s = refl
  read_rows-visible_version (r ∷ rows) h d s =
      ground (arith, read_rows-older r.version rows h.0.version_fits d.0)
