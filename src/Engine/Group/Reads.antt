-- ===== src/Engine/Group/Reads.antt =====
-- What `get` and `get_all_versions` read from the rows of a column family.
use sekv.Prelude.{
  ℕ, zero, suc, ◌<◌, ◌≡◌, refl, ◌≢◌, ap, true, Option, none, some, List, [], ◌∷◌, ◌++◌, map, arith,
  All, length, Bool-cases, inl, inr,
}
use mathlib.Core.List.{append_assoc, append-nil}
use sekv.Prelude.Bytes.{Bytes, eq_bytes, eq_bytes_iff, eq_bytes_refl, lt_bytes}
use sekv.Api.{Value, ValueSet, ShardDesc}
use sekv.Result.{Result, ok, err, ◌>>=◌}
use sekv.Engine.Keys.{raw}
use sekv.Engine.Snapshot.{
  SnapshotRange, target, Snapshot, of_key, next_mvcc_iterator, next_mvcc_entry,
}
use sekv.Engine.Snapshot.Steps.{
  state, next_mvcc_entry-cached, next_mvcc_entry-end, next_mvcc_entry-row,
  next_mvcc_iterator-target, next_mvcc_iterator-target_end,
}
use sekv.Engine.Rows.{Row, IsRow, row_key, item, entry, value, to_value-row}
use sekv.Engine.Rows.Seek.{
  IsSorted, rows_from, versions, leading, leading-rows_from, IsDescending, versions-IsDescending,
}
use sekv.Engine.Group.{GroupEngine, snapshot, first_value, get, push_values, get_all_versions}

-- The column family holds `rows`: rocksdb's iterator yields the pairs from a key on, in key order.
pub record Holds (engine : GroupEngine) (rows : List Row) : Type 0 where
  pub valid : All IsRow rows
  pub sorted : IsSorted rows
  pub seeks : (key : Bytes) → engine.seek key ≡ map item (rows_from key rows)

module _ (t : ℕ) (rng : Option SnapshotRange) (k : Bytes) where
  push_values-rows :
      (fuel : ℕ) (rows : List Row) (values : List Value)
      → length rows < fuel
      → All IsRow rows
      → push_values fuel (state t rng (some k) none (map item rows)) values
        ≡ ok (values ++ map value (leading t k rows))
  unfolding push_values leading
  push_values-rows zero rows values f h = absurd (omega arith)
  push_values-rows (suc fuel) [] values f h =
      ground (arith, next_mvcc_entry-end t rng k, append-nil values)
  push_values-rows (suc fuel) (r ∷ rows) values f h = ground (
    arith,
    next_mvcc_entry-row t rng k r (map item rows),
    to_value-row r h.0,
    push_values-rows fuel rows (values ++ value r ∷ []) (omega arith) h.1,
    append_assoc values (value r ∷ []) (map value (leading t k rows)),
    append-nil values,
  )

pub All-rows_from {κ} :
    (P : Row → Type κ) (key : Bytes) (rows : List Row) → All P rows → All P (rows_from key rows)
unfolding rows_from
All-rows_from P key [] h = tt
All-rows_from P key (r ∷ rows) h = elim (Bool-cases (lt_bytes (row_key r) key)) [
  | inl b ↦ rw b (All-rows_from P key rows h.1)
  | inr b ↦ rw b h
]

pub length-map-item : (rows : List Row) → length (map item rows) ≡ length rows
length-map-item [] = refl
length-map-item (r ∷ rows) = ap suc (length-map-item rows)

-- The first of a list of values.
abbrev pub first : List Row → Option Value
first [] = none
first (r ∷ rows) = some (value r)

module _ (desc : ShardDesc) (k : Bytes) where
  abbrev fresh : List Row → Snapshot
  fresh rows = state desc.table_id (some (target k)) none none (map item rows)

  -- the part of `get_all_versions` behind the snapshot
  abbrev read_all : Snapshot → Result ValueSet
  read_all s =
      let (r, s') = next_mvcc_iterator s in
      elim r [
        | none ↦ ok (record { user_key = k; values = [] })
        | some (err e) ↦ err e
        | some (ok u) ↦ do
          values ← push_values (suc (suc (length s'.core.db_iter))) s' []
          ok (record { user_key = k; values = values })
      ]

  push_values-first :
      (r : Row) (rows : List Row)
      → All IsRow (r ∷ rows)
      → eq_bytes k r.key ≡ true
      → push_values
          (suc (suc (length (map item rows))))
          (state desc.table_id (some (target k)) (some r.key) (some (entry r)) (map item rows))
          []
        ≡ ok (value r ∷ map value (leading desc.table_id k rows))
  unfolding push_values
  push_values-first r rows h e =
      let same : k ≡ r.key = (eq_bytes_iff k r.key).0 e in
      rw same (
        ground (
          arith,
          next_mvcc_entry-cached desc.table_id (some (target r.key)) r.key (entry r) (map item rows)
              (eq_bytes_refl r.key),
          to_value-row r h.0,
          push_values-rows desc.table_id (some (target r.key)) r.key (suc (length (map item rows)))
              rows (value r ∷ []) (omega (arith, length-map-item rows)) h.1,
        ))

  read_all-rows :
      (rows : List Row)
      → All IsRow rows
      → read_all (fresh rows)
        ≡ ok (record { user_key = k; values = map value (leading desc.table_id k rows) })
  unfolding leading
  read_all-rows [] h = ground (arith, next_mvcc_iterator-target_end desc.table_id k)
  read_all-rows (r ∷ rows) h = ground (
    arith,
    next_mvcc_iterator-target desc.table_id k r (map item rows),
    eq_bytes_iff k r.key,
    push_values-first r rows h,
  )

  abbrev read_first : Snapshot → Result (Option Value)
  read_first s =
      let (r, s') = next_mvcc_iterator s in
      elim r [
        | none ↦ ok none
        | some (err e) ↦ err e
        | some (ok u) ↦ first_value (next_mvcc_entry s').0
      ]

  read_first-rows :
      (rows : List Row)
      → All IsRow rows
      → read_first (fresh rows) ≡ ok (first (leading desc.table_id k rows))
  unfolding leading
  read_first-rows [] h = ground (arith, next_mvcc_iterator-target_end desc.table_id k)
  read_first-rows (r ∷ rows) h = ground (
    arith,
    next_mvcc_iterator-target desc.table_id k r (map item rows),
    next_mvcc_entry-cached desc.table_id (some (target k)) r.key (entry r) (map item rows)
        (eq_bytes_refl r.key),
    to_value-row r h.0,
  )

module _ (engine : GroupEngine) (rows : List Row) (shard_id : ℕ) (desc : ShardDesc) (key : Bytes)
    (holds : Holds engine rows) (known : engine.shard_descs shard_id ≡ some desc)
    (nonempty : key ≢ []) where
  abbrev found : List Row
  found = versions desc.table_id key rows

  pub snapshot-target :
      snapshot engine shard_id (of_key key)
      ≡ ok (
          state desc.table_id
            (some (target key))
            none
            none
            (map item (rows_from (raw desc.table_id key) rows)))
  unfolding snapshot
  snapshot-target = rw (known, holds.seeks (raw desc.table_id key)) refl

  pub valid_from : All IsRow (rows_from (raw desc.table_id key) rows)
  valid_from = All-rows_from IsRow (raw desc.table_id key) rows holds.valid

  -- `get_all_versions` returns the values of all versions of the key in the shard's table, in order,
  -- the newest first. The column family holds the rows in key order; the user key is not empty.
  pub get_all_versions-eq-versions :
      (get_all_versions engine shard_id key
        ≡ ok (record { user_key = key; values = map value found }))
      × IsDescending found
  unfolding get_all_versions
  get_all_versions-eq-versions = (
    ground (
      arith,
      snapshot-target,
      read_all-rows desc key (rows_from (raw desc.table_id key) rows) valid_from,
      leading-rows_from desc.table_id key nonempty rows holds.valid holds.sorted,
    ),
    versions-IsDescending desc.table_id key nonempty rows holds.valid holds.sorted,
  )

  -- `get` returns the newest version of the key in the shard's table, a tombstone or an intent
  -- included, or nothing where the key has no version. The column family holds the rows in key
  -- order; the user key is not empty.
  pub get-eq-first_version : (get engine shard_id key ≡ ok (first found)) × IsDescending found
  unfolding get
  get-eq-first_version = (
    ground (
      arith,
      snapshot-target,
      read_first-rows desc key (rows_from (raw desc.table_id key) rows) valid_from,
      leading-rows_from desc.table_id key nonempty rows holds.valid holds.sorted,
    ),
    versions-IsDescending desc.table_id key nonempty rows holds.valid holds.sorted,
  )
