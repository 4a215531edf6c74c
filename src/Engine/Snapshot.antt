-- ===== src/Engine/Snapshot.antt =====
-- `Snapshot`, `SnapshotCore` and `MvccIterator` of server/src/engine/group.rs. The rocksdb iterator is
-- the list of the items that it has yet to yield. A `MvccIterator` borrows its snapshot, so its
-- state is the snapshot's.
pub mod Steps
use sekv.Prelude.{
  ℕ, zero, suc, Bool, true, false, Option, none, some, List, [], ◌∷◌, ltb, if◌then◌else◌, length,
  take,
}
use sekv.Prelude.Bytes.{Bytes, eq_bytes, starts_with, to_le_bytes}
use sekv.Api.{Value, ShardDesc}
use sekv.Schema.Shard.{in_range, start_key, end_key}
use sekv.Result.{Result, ok, err, panicked, ◌>>=◌}
use sekv.Engine.Entry.{MvccEntry, new_entry, to_value}

-- What `rocksdb::DBIterator` yields.
abbrev pub Item : Type 0
Item = Result (Bytes × Bytes)

pub data SnapshotMode : Type 0 where
  from_start : Option Bytes → SnapshotMode
  of_key of_prefix : Bytes → SnapshotMode

pub data SnapshotRange : Type 0 where
  target prefix : Bytes → SnapshotRange
  range : Bytes → Bytes → SnapshotRange

pub record SnapshotCore : Type 0 where
  pub db_iter : List Item
  pub current_key : Option Bytes
  pub cached_entry : Option MvccEntry

pub record Snapshot : Type 0 where
  pub table_id : ℕ
  pub range : Option SnapshotRange
  pub core : SnapshotCore

unfoldable pub is_valid_key : SnapshotRange → Bytes → Bool
unfolding in_range starts_with
is_valid_key (target target_key) key = eq_bytes target_key key
is_valid_key (prefix p) key = starts_with key p
is_valid_key (range start end) key = in_range start end key

unfoldable pub snapshot_range : SnapshotMode → ShardDesc → SnapshotRange
unfolding start_key end_key
snapshot_range (of_key key) desc = target key
snapshot_range (of_prefix key) desc = prefix key
snapshot_range (from_start none) desc = range (start_key desc) (end_key desc)
snapshot_range (from_start (some key)) desc = range key (end_key desc)

-- `Snapshot::new`
unfoldable pub new_snapshot : ℕ → List Item → SnapshotMode → ShardDesc → Snapshot
unfolding snapshot_range
new_snapshot table_id db_iter mode desc = record {
  table_id = table_id;
  range = some (snapshot_range mode desc);
  core = record { db_iter = db_iter; current_key = none; cached_entry = none };
}

abbrev cache_entry : SnapshotCore → Result MvccEntry → Option (Result (Unit {0})) × SnapshotCore
cache_entry core (ok entry) = (some (ok tt), record core { cached_entry = some entry })
cache_entry core (err e) = (some (err e), core)

-- `&key[..size_of::<u64>()]` is out of range for a shorter key
abbrev read_item : ℕ → SnapshotCore → Bytes → Bytes → Option (Result (Unit {0})) × SnapshotCore
read_item table_id core key value =
    if ltb (length key) 8
    then (some (err panicked), core)
    else if eq_bytes (take 8 key) (to_le_bytes 8 table_id)
    then cache_entry core (new_entry key value)
    else (none, core)

abbrev take_item : ℕ → SnapshotCore → List Item → Option (Result (Unit {0})) × SnapshotCore
take_item table_id core [] = (none, core)
take_item table_id core (err e ∷ rest) = (some (err e), record core { db_iter = rest })
take_item table_id core (ok (key, value) ∷ rest) =
    read_item table_id (record core { db_iter = rest }) key value

unfoldable pub next_entry : ℕ → SnapshotCore → Option (Result (Unit {0})) × SnapshotCore
next_entry table_id core = take_item table_id core core.db_iter

abbrev is_key : Option Bytes → Bytes → Bool
is_key none target_key = false
is_key (some k) target_key = eq_bytes k target_key

unfoldable pub is_current_key : SnapshotCore → Bytes → Bool
is_current_key core target_key = is_key core.current_key target_key

-- What the cached entry means for `next_mvcc_iterator`: its range is consumed, it begins another key,
-- or an item has to be read.
pub data Cached : Type 0 where
  consumed begins passed : Cached

abbrev in_snapshot : Option SnapshotRange → Bytes → Bool
in_snapshot none key = true
in_snapshot (some r) key = is_valid_key r key

unfoldable pub cached : Snapshot → Option MvccEntry → Cached
unfolding is_current_key is_valid_key
cached s none = passed
cached s (some entry) =
    if in_snapshot s.range entry.user_key
    then (if is_current_key s.core entry.user_key then passed else begins)
    else consumed

abbrev key_of : Option MvccEntry → Option Bytes
key_of none = none
key_of (some entry) = some entry.user_key

-- The `loop` of `next_mvcc_iterator`: a round that goes on takes an item off the iterator.
-- `some (ok tt)` stands for an iterator over the snapshot that comes back with it.
unfoldable pub find_key : ℕ → Snapshot → Option (Result (Unit {0})) × Snapshot
unfolding cached next_entry
find_key zero s = (none, s)
find_key (suc fuel) s = elim (cached s s.core.cached_entry) [
  | consumed ↦ (none, s)
  | begins ↦
      (some (ok tt), record s { core = record s.core { current_key = key_of s.core.cached_entry } })
  | passed ↦
      let (r, core) = next_entry s.table_id s.core in
      elim r [
        | none ↦ (none, record s { core = core })
        | some (err e) ↦ (some (err e), record s { core = core })
        | some (ok u) ↦ find_key fuel (record s { core = core })
      ]
]

abbrev rounds : Snapshot → ℕ
rounds s = suc (suc (length s.core.db_iter))

unfoldable pub next_mvcc_iterator : Snapshot → Option (Result (Unit {0})) × Snapshot
unfolding find_key
next_mvcc_iterator s = find_key (rounds s) s

abbrev take_cached : Snapshot → Option MvccEntry → Option (Option (Result MvccEntry) × Snapshot)
take_cached s none = none
take_cached s (some entry) =
    if is_current_key s.core entry.user_key
    then some (some (ok entry), record s { core = record s.core { cached_entry = none } })
    else some (none, s)

-- The `loop` of `next_mvcc_entry`
unfoldable pub find_entry : ℕ → Snapshot → Option (Result MvccEntry) × Snapshot
unfolding is_current_key next_entry
find_entry zero s = (none, s)
find_entry (suc fuel) s = elim (take_cached s s.core.cached_entry) [
  | some found ↦ found
  | none ↦
      let (r, core) = next_entry s.table_id s.core in
      elim r [
        | none ↦ (none, record s { core = core })
        | some (err e) ↦ (some (err e), record s { core = core })
        | some (ok u) ↦ find_entry fuel (record s { core = core })
      ]
]

unfoldable pub next_mvcc_entry : Snapshot → Option (Result MvccEntry) × Snapshot
unfolding find_entry
next_mvcc_entry s = find_entry (rounds s) s
