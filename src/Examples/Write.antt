-- ===== src/Examples/Write.antt =====
-- Batches of an internal shard, and a value set of a moving shard, on the rows of `Store`.
use sekv.Prelude.{ℕ, ◌≡◌, refl, false, none, some, List, [], ◌∷◌, map, arith, All}
use sekv.Prelude.Bytes.{Bytes, eq_bytes, cmp, to_le_bytes}
use sekv.Api.{ValueSet, PutRequest, put_none, ShardWriteRequest, ShardWriteResponse}
use sekv.Result.{ok}
use sekv.Engine.Rows.{Row}
use sekv.Engine.Rows.Seek.{versions}
use sekv.Engine.Group
use sekv.Engine.Group.Reads.{get-eq-first_version}
use sekv.Eval.Forward.{moving_to, forward_or}
use sekv.Eval.Cas.{eval_conditions}
use sekv.Eval.Write.{check, write_deletes, write_puts, write_version, batch_write}
use sekv.Eval.Write.Newest.{Writable, writes, Stored, op_of, Passes}
use sekv.Eval.Write.Batch.{batch_write-Stored, batch_write-ok}
use sekv.Examples.Store.{key_a, a_nonempty, rows, desc, ctx, engine, holds}

abbrev now : ℕ → ℕ
now n = 15

abbrev put_a : PutRequest
put_a = record {
  put_type = put_none;
  ttl = 0;
  key = key_a;
  value = 6 ∷ [];
  conditions = [];
  take_prev_value = false;
}

abbrev req : ShardWriteRequest
req = record { shard_id = 1; deletes = []; puts = put_a ∷ [] }

stays : moving_to ctx 1 ≡ ok none
unfolding moving_to
stays = refl

writable : All (Writable 1 rows) (writes req)
unfolding versions eq_bytes cmp to_le_bytes
writable = ((a_nonempty, (omega arith, (omega arith, tt))), tt)

passing : All (Passes engine rows now 1 desc holds refl) (writes req)
unfolding eval_conditions
passing = (refl, tt)

batch_write-ok_example :
    (rs : List Row) × (resp : ShardWriteResponse) × (batch_write ctx engine now req
      ≡ ok (some (map op_of rs), resp))
    × Stored 1 rows (writes req) rs
batch_write-ok_example =
    batch_write-ok engine rows now ctx req desc holds refl stays writable refl passing (refl, tt)

newest_a : Group.get engine 1 key_a ≡ ok (some (record { content = none; version = 20 }))
unfolding versions eq_bytes cmp to_le_bytes
newest_a = (get-eq-first_version engine rows 1 desc key_a holds refl a_nonempty).0

abbrev written : Row
written = record { table_id = 1; key = key_a; version = 21; content = some (6 ∷ []) }

returned :
    batch_write ctx engine now req
    ≡ ok (
      some (op_of written ∷ []),
      record { deletes = []; puts = record { prev_value = none } ∷ [] },
    )
unfolding batch_write forward_or moving_to write_puts write_deletes check eval_conditions
    write_version Group.put
returned = rw newest_a refl

batch_write-Stored_example :
    (rs : List Row) × (op_of written ∷ [] ≡ map op_of rs) × Stored 1 rows (writes req) rs
batch_write-Stored_example =
    batch_write-Stored engine rows now ctx req desc holds refl stays writable (op_of written ∷ [])
      (record { deletes = []; puts = record { prev_value = none } ∷ [] }) returned

abbrev key_c : Bytes
key_c = b'c' ∷ []

abbrev moved : ValueSet
moved = record { user_key = key_c; values = record { content = none; version = 3 } ∷ [] }
