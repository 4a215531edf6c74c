-- ===== src/Engine/Snapshot/Steps.antt =====
-- One step of the two iterators over the rows of a column family.
use sekv.Prelude.{
  ℕ, ◌≡◌, refl, Bool, true, false, Option, none, some, List, [], ◌∷◌, arith, length, ltb,
  if◌then◌else◌,
}
use sekv.Prelude.Bytes.{Bytes, eq_bytes, to_le_bytes}
use sekv.Result.{ok}
use sekv.Engine.Keys.RoundTrip.{length-mvcc_key, table_part}
use sekv.Engine.Entry.{MvccEntry}
use sekv.Engine.Rows.{Row, row_key, item, entry, new_entry-row}
use sekv.Engine.Snapshot.{
  Item, SnapshotRange, target, Snapshot, next_entry, next_mvcc_iterator, next_mvcc_entry,
}

abbrev pub same_table : ℕ → Row → Bool
same_table t r = eq_bytes (to_le_bytes 8 r.table_id) (to_le_bytes 8 t)

-- The state of a snapshot.
abbrev pub state : ℕ → Option SnapshotRange → Option Bytes → Option MvccEntry → List Item → Snapshot
state t range key cached_entry iter = record {
  table_id = t;
  range = range;
  core = record { db_iter = iter; current_key = key; cached_entry = cached_entry };
}

module _ (t : ℕ) (key : Option Bytes) (cached_entry : Option MvccEntry) (r : Row)
    (rest : List Item) where
  next_entry-row :
      next_entry t
        (record { db_iter = item r ∷ rest; current_key = key; cached_entry = cached_entry })
      ≡ (if same_table t r
          then (
            some (ok tt),
            record { db_iter = rest; current_key = key; cached_entry = some (entry r) },
          )
          else (none, record { db_iter = rest; current_key = key; cached_entry = cached_entry }))
  unfolding next_entry
  next_entry-row =
      let long : ltb (length (row_key r)) 8 ≡ false =
        ground (arith, length-mvcc_key r.table_id r.key r.version) in
      rw (long, table_part r.table_id r.key r.version, new_entry-row r) refl

module _ (t : ℕ) (range : Option SnapshotRange) (k : Bytes) where
  -- The entry of the current key that was cached is yielded.
  pub next_mvcc_entry-cached :
      (e : MvccEntry) (iter : List Item)
      → eq_bytes k e.user_key ≡ true
      → next_mvcc_entry (state t range (some k) (some e) iter)
        ≡ (some (ok e), state t range (some k) none iter)
  unfolding next_mvcc_entry
  next_mvcc_entry-cached e iter h = ground arith

  pub next_mvcc_entry-end :
      next_mvcc_entry (state t range (some k) none []) ≡ (none, state t range (some k) none [])
  unfolding next_mvcc_entry
  next_mvcc_entry-end = refl

  pub next_mvcc_entry-row :
      (r : Row) (iter : List Item)
      → next_mvcc_entry (state t range (some k) none (item r ∷ iter)) ≡ (
          if same_table t r
          then (if eq_bytes k r.key
              then (some (ok (entry r)), state t range (some k) none iter)
              else (none, state t range (some k) (some (entry r)) iter))
          else (none, state t range (some k) none iter))
  unfolding next_mvcc_entry
  next_mvcc_entry-row r iter = ground (arith, next_entry-row t (some k) none r iter)

-- A snapshot of one key starts on the first row, if that is a row of the key.
pub next_mvcc_iterator-target :
    (t : ℕ) (k : Bytes) (r : Row) (iter : List Item)
    → next_mvcc_iterator (state t (some (target k)) none none (item r ∷ iter)) ≡ (
        if same_table t r
        then (if eq_bytes k r.key
            then (some (ok tt), state t (some (target k)) (some r.key) (some (entry r)) iter)
            else (none, state t (some (target k)) none (some (entry r)) iter))
        else (none, state t (some (target k)) none none iter))
unfolding next_mvcc_iterator
next_mvcc_iterator-target t k r iter = ground (arith, next_entry-row t none none r iter)

pub next_mvcc_iterator-target_end :
    (t : ℕ) (k : Bytes)
    → next_mvcc_iterator (state t (some (target k)) none none [])
      ≡ (none, state t (some (target k)) none none [])
unfolding next_mvcc_iterator
next_mvcc_iterator-target_end t k = refl
