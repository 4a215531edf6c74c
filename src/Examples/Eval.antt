-- ===== src/Examples/Eval.antt =====
-- Reads at a version, and the conditions of a write.
use sekv.Prelude.{ℕ, ◌≡◌, refl, ◌≢◌, ◌↔◌, true, Option, none, some, List, [], ◌∷◌, arith}
use sekv.Prelude.Bytes.{eq_bytes, cmp, to_le_bytes}
use sekv.Api.{
  Value, WriteCondition, put_intent, expect_version_lt, expect_contains, ExecCtx, MoveShardDesc,
}
use sekv.Result.{ok, err, forward}
use sekv.Engine.Rows.Seek.{versions, IsDescending}
use sekv.Eval.Get.{Resolve, read_key, get}
use sekv.Eval.Get.Isolation.{
  IsNewestVisible, IsInTime, NoIntent, read_key-eq-visible_version, read_key-IsNewestVisible,
  get-moving,
}
use sekv.Eval.Cas.{eval_condition, eval_conditions, eval_value}
use sekv.Eval.Cas.Laws.{FirstFails, eval_conditions-FirstFails}
use sekv.Eval.Cas.Meaning.{Means, eval_condition-Means}
use sekv.Examples.Store.{codec, key_a, key_b, a_nonempty, b_nonempty, rows, desc, engine, holds}

-- The transaction of the intent committed at 40.
abbrev resolve : Resolve
resolve shard_id key start_version intent_version =
    ok (some (record { content = some (9 ∷ []); version = 40 }))

abbrev move : MoveShardDesc
move = record {
  shard_desc = some desc;
  src_group_id = 1;
  src_group_epoch = 0;
  dest_group_id = 2;
  dest_group_epoch = 0;
}

abbrev moving : ExecCtx
moving = record { group_id = 1; move_shard_desc = some move }

read_key-eq-visible_version_example :
    (read_key codec resolve 1 key_b 50 engine
      ≡ ok (some (record { content = some (9 ∷ []); version = 40 })))
    × IsInTime 50 (read_key codec resolve 1 key_b 50 engine)
unfolding versions eq_bytes cmp to_le_bytes put_intent
read_key-eq-visible_version_example =
    read_key-eq-visible_version codec resolve 50 engine rows 1 desc key_b holds refl b_nonempty
      (omega arith)

a_committed : NoIntent (versions 1 key_a rows)
unfolding versions eq_bytes cmp to_le_bytes
a_committed = (omega arith, (omega arith, tt))

read_key-IsNewestVisible_example :
    (v : Option Value) × (read_key codec resolve 1 key_a 15 engine ≡ ok v)
    × IsNewestVisible 15 (versions 1 key_a rows) v
read_key-IsNewestVisible_example =
    read_key-IsNewestVisible codec resolve 15 engine rows 1 desc key_a holds refl a_nonempty
      (omega arith) a_committed

get-moving_example :
    (get codec resolve moving engine (record { shard_id = 1; start_version = 15; user_key = key_a })
      ≡ err (
          forward (record {
            shard_id = 1;
            dest_group_id = 2;
            payloads =
                record {
                  user_key = key_a;
                  values =
                      record { content = none; version = 20 }
                      ∷ record { content = some (7 ∷ []); version = 10 }
                      ∷ [];
                }
                ∷ [];
          })))
    × IsDescending (versions 1 key_a rows)
unfolding versions eq_bytes cmp to_le_bytes
get-moving_example =
    get-moving codec resolve engine rows moving
      (record { shard_id = 1; start_version = 15; user_key = key_a }) desc desc move holds refl
      a_nonempty refl refl

abbrev condition : ℕ → ℕ → WriteCondition
condition type version = record { type = type; value = 5 ∷ []; version = version; begin = 0 }

abbrev present : Value
present = record { content = some (7 ∷ []); version = 10 }

-- the value exists, and its version is less than 4, which fails
abbrev conditions : List WriteCondition
conditions = condition 0 0 ∷ condition 4 4 ∷ []

second_fails : eval_conditions (some present) conditions ≡ ok (some 1)
unfolding eval_conditions eval_condition eval_value
second_fails = refl

eval_conditions-FirstFails_example : FirstFails (some present) conditions 1
eval_conditions-FirstFails_example =
    eval_conditions-FirstFails (some present) conditions 1 second_fails

not_contains : expect_version_lt ≢ expect_contains
not_contains = λ e. cc

eval_condition-Means_example :
    (eval_condition (condition 4 11) (some present) ≡ ok true)
    ↔ Means expect_version_lt (condition 4 11) (some present)
eval_condition-Means_example =
    eval_condition-Means expect_version_lt (condition 4 11) (some present) refl not_contains
