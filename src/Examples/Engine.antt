-- ===== src/Examples/Engine.antt =====
-- The key format and the point reads on the rows of `Store`.
use sekv.Prelude.{◌≡◌, refl, ◌≢◌, none, some, [], ◌∷◌, arith}
use Prim.Native.Nat.Ordering.{gt}
use sekv.Prelude.Bytes.{Bytes, cmp, eq_bytes, to_le_bytes}
use sekv.Result.{ok}
use sekv.Engine.Keys.{mvcc_key, revert_mvcc_key}
use sekv.Engine.Keys.Order.{cmp-mvcc_key}
use sekv.Engine.Keys.RoundTrip.{revert_mvcc_key-mvcc_key}
use sekv.Engine.Entry.{MvccEntry, new_entry, to_value}
use sekv.Engine.Entry.RoundTrip.{stored, new_entry-mvcc_key}
use sekv.Engine.Rows.Seek.{versions, IsDescending}
use sekv.Engine.Group.{get_all_versions}
use sekv.Engine.Group.Reads.{get_all_versions-eq-versions}
use sekv.Examples.Store.{key_a, a_nonempty, rows, desc, engine, holds}

-- a key of two groups
abbrev long_key : Bytes
long_key = 1 ∷ 2 ∷ 3 ∷ 4 ∷ 5 ∷ 6 ∷ 7 ∷ 8 ∷ 9 ∷ []

long_nonempty : long_key ≢ []
long_nonempty = λ e. cc

cmp-mvcc_key_example : cmp (mvcc_key 1 long_key 20) (mvcc_key 1 long_key 30) ≡ gt
unfolding cmp to_le_bytes
cmp-mvcc_key_example =
    cmp-mvcc_key 1 1 long_key long_key 20 30 long_nonempty long_nonempty (omega arith) (omega arith)

revert_mvcc_key-mvcc_key_example : revert_mvcc_key (mvcc_key 1 long_key 20) ≡ ok long_key
revert_mvcc_key-mvcc_key_example = revert_mvcc_key-mvcc_key 1 long_key 20

new_entry-mvcc_key_example :
    (entry : MvccEntry) × (new_entry (mvcc_key 1 long_key 20) (stored none) ≡ ok entry)
    × (entry.user_key ≡ long_key)
    × (to_value entry ≡ ok (record { content = none; version = 20 }))
new_entry-mvcc_key_example = new_entry-mvcc_key 1 long_key 20 none (omega arith)

get_all_versions-eq-versions_example :
    (get_all_versions engine 1 key_a
      ≡ ok (record {
        user_key = key_a;
        values =
            record { content = none; version = 20 }
            ∷ record { content = some (7 ∷ []); version = 10 }
            ∷ [];
      }))
    × IsDescending (versions 1 key_a rows)
unfolding versions eq_bytes cmp to_le_bytes
get_all_versions-eq-versions_example =
    get_all_versions-eq-versions engine rows 1 desc key_a holds refl a_nonempty
