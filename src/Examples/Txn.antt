-- ===== src/Examples/Txn.antt =====
-- The intents of a transaction: written, resolved, committed and cleared on the rows of `Store`.
use sekv.Prelude.{◌≡◌, refl, ◌↔◌, true, false, Bool, Option, none, some, [], ◌∷◌, arith}
use sekv.Prelude.Bytes.{eq_bytes, cmp, to_le_bytes, to_be_bytes}
use sekv.Rock.Num.{decode_i64, decode_u64}
use sekv.Api.{
  Value, PutRequest, put_none, add_i64, WriteRequest, put_request, delete_request, put_intent,
  committed,
}
use sekv.Result.{Result, ok}
use sekv.Engine.Rows.Seek.{versions}
use sekv.Engine.Snapshot.{next_mvcc_iterator}
use sekv.Engine.Group.{GroupEngine, snapshot}
use sekv.Eval.Forward.{moving_to}
use sekv.Eval.Txn.{
  Resolve, apply_put_op, is_atomic_operation, read_intent_and_next_key, read_first_non_intent_key,
  write_on, commit_intent,
}
use sekv.Eval.Txn.Commit.{delete_intent, intent_row, write_ops, committed_row, commit_intent-eq}
use sekv.Eval.Txn.Puts.{apply_put_op-add_i64}
use sekv.Eval.Txn.Write.{PutAnswer, write_on-put}
use sekv.Eval.Txn.Rounds.{Settled, Returns, read_first_non_intent_key-ends}
use sekv.Examples.Store.{codec, key_a, key_b, b_nonempty, intent, rows, desc, ctx, engine, holds}

abbrev five : Option Value
five = some (record { content = some (to_be_bytes 8 5); version = 10 })

five_decodes : decode_i64 (to_be_bytes 8 5) ≡ some 5
unfolding to_be_bytes decode_u64
five_decodes = refl

seven_decodes : decode_i64 (to_be_bytes 8 7) ≡ some 7
unfolding to_be_bytes decode_u64
seven_decodes = refl

apply_put_op-add_i64_example :
    (apply_put_op add_i64 five (to_be_bytes 8 7) ≡ ok (some (to_be_bytes 8 12)))
    × (decode_i64 (to_be_bytes 8 12) ≡ some 12)
apply_put_op-add_i64_example =
    apply_put_op-add_i64 five (to_be_bytes 8 7) 5 7 five_decodes seven_decodes

abbrev deletion : WriteRequest
deletion = delete_request (record { key = key_a; conditions = []; take_prev_value = false })

deletion_waits : is_atomic_operation deletion ≡ false
unfolding is_atomic_operation
deletion_waits = refl

abbrev put_a : PutRequest
put_a = record {
  put_type = put_none;
  ttl = 0;
  key = key_a;
  value = 6 ∷ [];
  conditions = [];
  take_prev_value = true;
}

abbrev newest : Option Value
newest = some (record { content = none; version = 20 })

write_on-put_example :
    (write_on codec engine 1 25 newest false (put_request put_a)
      ≡ ok (
        some (write_ops (some (intent_row 1 key_a (codec.encode (put_intent 25 (some (6 ∷ []))))))),
        record { prev_value = newest },
      ))
    ↔ PutAnswer codec engine 1 25 desc refl put_a newest false (
      some (write_ops (some (intent_row 1 key_a (codec.encode (put_intent 25 (some (6 ∷ []))))))),
      record { prev_value = newest },
    )
write_on-put_example = write_on-put codec engine 1 25 desc refl put_a newest false (
  some (write_ops (some (intent_row 1 key_a (codec.encode (put_intent 25 (some (6 ∷ []))))))),
  record { prev_value = newest },
)

-- what the column family holds when the intent of "b" was cleared
abbrev cleared : GroupEngine
cleared = record { shard_descs = engine.shard_descs; seek = λ key. [] }

abbrev resolve : Resolve
resolve i e = ok cleared

cleared-Settled : Settled 50 (read_intent_and_next_key codec 1 key_b cleared)
unfolding read_intent_and_next_key snapshot next_mvcc_iterator
cleared-Settled = tt

read_first_non_intent_key-ends_example :
    (r : Result ((Bool × Option Value) × GroupEngine)) × (read_first_non_intent_key codec 1 key_b
        resolve 50 2 engine
      ≡ some r)
    × Returns codec resolve 1 key_b 50 1 engine r
read_first_non_intent_key-ends_example =
    read_first_non_intent_key-ends codec resolve 1 key_b 50 1 1 engine (omega arith)
      (λ i e p. let same : cleared ≡ e = cc in rw (← same) cleared-Settled)

abbrev again : WriteRequest
again = put_request (record {
  put_type = put_none;
  ttl = 0;
  key = key_b;
  value = 9 ∷ [];
  conditions = [];
  take_prev_value = false;
})

stays : moving_to ctx 1 ≡ ok none
unfolding moving_to
stays = refl

commit_intent-eq_example :
    commit_intent codec ctx engine none
      (record { shard_id = 1; start_version = 30; commit_version = 40; user_key = key_b })
    ≡ ok (
      some (delete_intent 1 key_b ∷ write_ops (committed_row 1 key_b 40 intent)),
      some (committed, some 40),
    )
unfolding versions eq_bytes cmp to_le_bytes put_intent
commit_intent-eq_example =
    commit_intent-eq codec engine rows ctx none desc holds
      (record { shard_id = 1; start_version = 30; commit_version = 40; user_key = key_b }) refl
      b_nonempty stays
