-- ===== src/Engine/Rows.antt =====
-- The content of a group's column family as the versions that were written: the pair that rocksdb
-- holds for each, and the order in which it yields them.
pub mod Seek
pub mod Apply
use sekv.Prelude.{
  ℕ, ◌≤◌, ◌≡◌, refl, ◌≢◌, Bool, true, false, ◌&&◌, Option, none, some, List, [], ◌∷◌, map, arith,
  length, All, ltb, compare, Ordering, if◌then◌else◌,
}
use sekv.Prelude.Bytes.{Bytes, cmp, eq_bytes, lt_bytes, to_le_bytes, cmp_refl}
use sekv.Api.{Value}
use sekv.Result.{Result, ok, err, ◌>>=◌}
use sekv.Engine.Keys.{u64_max, mvcc_key}
use sekv.Engine.Keys.RoundTrip.{revert_mvcc_key-mvcc_key, length-mvcc_key, table_part}
use sekv.Engine.Keys.Order.{cmp-mvcc_key}
use sekv.Engine.Entry.{MvccEntry, new_entry, entry_version, entry_value, to_value}
use sekv.Engine.Entry.RoundTrip.{stored, value_of-stored, entry_version-mvcc_key}
use sekv.Engine.Snapshot.{Item}

pub record Row : Type 0 where
  pub table_id : ℕ
  pub key : Bytes
  pub version : ℕ
  pub content : Option Bytes

-- User keys are not empty, and versions are 64 bit words.
pub record IsRow (r : Row) : Type 0 where
  pub key_nonempty : r.key ≢ []
  pub version_fits : r.version ≤ u64_max

abbrev pub row_key : Row → Bytes
row_key r = mvcc_key r.table_id r.key r.version

abbrev pub item : Row → Item
item r = ok (row_key r, stored r.content)

abbrev pub entry : Row → MvccEntry
entry r = record { key = row_key r; user_key = r.key; value = stored r.content }

abbrev pub value : Row → Value
value r = record { content = r.content; version = r.version }

pub new_entry-row : (r : Row) → new_entry (row_key r) (stored r.content) ≡ ok (entry r)
unfolding new_entry
new_entry-row r = rw (revert_mvcc_key-mvcc_key r.table_id r.key r.version)

pub entry_version-row : (r : Row) → IsRow r → entry_version (entry r) ≡ r.version
entry_version-row r h =
    entry_version-mvcc_key r.table_id r.key r.key (stored r.content) r.version h.version_fits

pub entry_value-row : (r : Row) → entry_value (entry r) ≡ ok r.content
entry_value-row r = value_of-stored r.content

pub to_value-row : (r : Row) → IsRow r → to_value (entry r) ≡ ok (value r)
unfolding to_value
to_value-row r h = rw (value_of-stored r.content, entry_version-row r h)
