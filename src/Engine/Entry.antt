-- ===== src/Engine/Entry.antt =====
-- `mod values`, `MvccEntry` and `WriteBatch` of server/src/engine/group.rs. A rocksdb pair of a key
-- and a value is a pair of byte strings.
pub mod RoundTrip
use sekv.Prelude.{
  ℕ, ◌-◌, Bool, Option, none, some, List, [], ◌∷◌, ◌++◌, ◌==◌, if◌then◌else◌, length, drop,
}
use sekv.Prelude.Bytes.{Bytes, from_be_bytes}
use sekv.Api.{Value}
use sekv.Result.{Result, ok, err, panicked, ◌>>=◌}
use sekv.Engine.Keys.{u64_max, mvcc_key, revert_mvcc_key}

abbrev pub data_tag : ℕ
data_tag = 0

abbrev pub tombstone_tag : ℕ
tombstone_tag = 1

-- `values::tombstone`
abbrev pub tombstone_value : Bytes
tombstone_value = tombstone_tag ∷ []

-- `values::data`
abbrev pub data_value : Bytes → Bytes
data_value v = data_tag ∷ v

pub record MvccEntry : Type 0 where
  pub key : Bytes
  pub user_key : Bytes
  pub value : Bytes

unfoldable pub new_entry : Bytes → Bytes → Result MvccEntry
new_entry key value = do
  user_key ← revert_mvcc_key key
  ok (record { key = key; user_key = user_key; value = value })

-- `MvccEntry::version`: the complement of the last eight bytes
unfoldable pub entry_version : MvccEntry → ℕ
unfolding from_be_bytes
entry_version entry = u64_max - from_be_bytes (drop (length entry.key - 8) entry.key)

-- `MvccEntry::value`: `self.value[0]` is out of range for an empty value
unfoldable pub value_of : Bytes → Result (Option Bytes)
value_of [] = err panicked
value_of (tag ∷ content) = if tag == tombstone_tag then ok none else ok (some content)

abbrev pub entry_value : MvccEntry → Result (Option Bytes)
entry_value entry = value_of entry.value

-- `impl From<MvccEntry> for Value`
unfoldable pub to_value : MvccEntry → Result Value
to_value entry = do
  content ← entry_value entry
  ok (record { content = content; version = entry_version entry })
