-- ===== src/Engine/Entry/RoundTrip.antt =====
-- What is written under an mvcc key is read back as the same version of the same key.
use sekv.Prelude.{ℕ, ◌-◌, ◌≤◌, ◌≡◌, refl, Option, none, some, arith}
use sekv.Prelude.Bytes.{Bytes, from_be_bytes-to_be_bytes}
use sekv.Result.{ok}
use sekv.Engine.Keys.{u64_max, mvcc_key}
use sekv.Engine.Keys.RoundTrip.{revert_mvcc_key-mvcc_key, version_part}
use sekv.Engine.Entry.{
  tombstone_value, data_value, MvccEntry, new_entry, entry_version, value_of, to_value,
}

-- The bytes that `GroupEngine::put` and `GroupEngine::tombstone` store for a version.
abbrev pub stored : Option Bytes → Bytes
stored none = tombstone_value
stored (some content) = data_value content

pub value_of-stored : (content : Option Bytes) → value_of (stored content) ≡ ok content
unfolding value_of
value_of-stored none = refl
value_of-stored (some content) = refl

pub entry_version-mvcc_key :
    (table_id : ℕ) (key u value : Bytes) (version : ℕ)
    → version ≤ u64_max
    → entry_version (record { key = mvcc_key table_id key version; user_key = u; value = value })
      ≡ version
unfolding entry_version
entry_version-mvcc_key t key u value v h =
    rw (version_part t key v, from_be_bytes-to_be_bytes 8 (u64_max - v) (omega arith)) (omega arith)

-- The entry that a stored version is read as: its user key, and the version with its content, a
-- tombstone without one. The version is a 64 bit word.
pub new_entry-mvcc_key :
    (table_id : ℕ) (key : Bytes) (version : ℕ) (content : Option Bytes)
    → version ≤ u64_max
    → (entry : MvccEntry) × (new_entry (mvcc_key table_id key version) (stored content) ≡ ok entry)
      × (entry.user_key ≡ key)
      × (to_value entry ≡ ok (record { content = content; version = version }))
unfolding new_entry to_value
new_entry-mvcc_key t key v content h = (
  record { key = mvcc_key t key v; user_key = key; value = stored content },
  rw (revert_mvcc_key-mvcc_key t key v),
  refl,
  rw (value_of-stored content, entry_version-mvcc_key t key key (stored content) v h),
)
