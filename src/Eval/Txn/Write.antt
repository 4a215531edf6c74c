-- ===== src/Eval/Txn/Write.antt =====
-- `write_intent` on what it read: conflicts, conditions, repeated requests, and what a new intent holds.
use sekv.Prelude.{
  ℕ, ◌≤◌, ◌<◌, ◌≡◌, refl, ◌∙◌, ap, sym, ◌↔◌, ◌⊎◌, List, [], ◌∷◌, All, ◌&&◌, ltb, Bool-cases, inl,
  inr, Bool, true, false, Option, none, some, arith, if◌then◌else◌,
}
use mathlib.Core.Path.{subst}
use sekv.Prelude.Bytes.{Bytes}
use sekv.Api.{
  Value, WriteRequest, put_request, PutRequest, PutType, put_none, nop, add_i64, WriteCondition,
  WriteResponse, put_intent, IntentCodec, ShardDesc,
}
use sekv.Result.{Result, ok, err, txn_conflict, cas_failed, ◌>>=◌, >>=-eq-ok, ok-eq}
use sekv.Engine.Group
use sekv.Engine.Group.{GroupEngine, WriteBatch}
use sekv.Eval.Cas.{eval_conditions}
use sekv.Eval.Cas.Laws.{Satisfied, eval_conditions-none_iff}
use sekv.Eval.Get.{txn_intent_version}
use sekv.Eval.Txn.{
  no_conditions, is_add, response, check_conflict, check_conditions, eval_result, apply_put_op,
  is_atomic_operation, intent_batch, write_on,
}
use sekv.Eval.Txn.Commit.{intent_row, write_ops}
use sekv.Eval.Txn.Puts.{Puts, apply_put_op-Puts}

module _ (codec : IntentCodec) (engine : GroupEngine) (shard_id start_version : ℕ)
    (desc : ShardDesc) (known : engine.shard_descs shard_id ≡ some desc) where
  -- A key that was committed after the transaction started is a conflict, except for an addition without
  -- conditions, whatever else the request asks.
  write_on-conflict :
      (skip_write : Bool) (write : WriteRequest) (v : Value)
      → start_version < v.version
      → is_atomic_operation write ≡ false
      → write_on codec engine shard_id start_version (some v) skip_write write ≡ err txn_conflict
  unfolding write_on
  write_on-conflict skip_write write v h a = ground arith

-- The key was not committed after the transaction started, or the put is an addition without conditions.
abbrev pub NoConflict : PutRequest → ℕ → Option Value → Type 0
NoConflict put start_version none = Unit
NoConflict put start_version (some v) =
    (v.version ≤ start_version) ⊎ ((put.put_type ≡ add_i64) × (put.conditions ≡ []))

is_atomic_operation_iff :
    (type : PutType) (conditions : List WriteCondition)
    → ((no_conditions conditions && is_add type) ≡ true) ↔ ((type ≡ add_i64) × (conditions ≡ []))
is_atomic_operation_iff add_i64 [] = (λ h. (refl, refl), λ h. refl)
is_atomic_operation_iff type (cond ∷ conditions) = (λ h. cc, λ h. cc)
is_atomic_operation_iff put_none [] = (λ h. cc, λ h. cc)
is_atomic_operation_iff nop [] = (λ h. cc, λ h. cc)

check_conflict-NoConflict :
    (put : PutRequest) (start_version : ℕ) (prev_value : Option Value)
    → (check_conflict (put_request put) start_version prev_value ≡ ok tt)
      ↔ NoConflict put start_version prev_value
unfolding is_atomic_operation
check_conflict-NoConflict put start_version none = (λ h. tt, λ h. refl)
check_conflict-NoConflict put start_version (some v) =
    let atomic = is_atomic_operation_iff put.put_type put.conditions in
    elim (Bool-cases (ltb start_version v.version)) [
      | inr e ↦ (λ h. inl (ground arith), λ h. rw e refl)
      | inl e ↦ elim (Bool-cases (no_conditions put.conditions && is_add put.put_type)) [
        | inl a ↦ (λ h. inr (atomic.0 a), λ h. rw (e, a) refl)
        | inr a ↦ (
          λ h. absurd (ground arith),
          λ h. elim h [
            | inl le ↦ absurd (ground arith)
            | inr add ↦ absurd (ground (arith, atomic.1 add))
          ],
        )
      ]
    ]

check_conditions-All :
    (prev_value : Option Value) (conditions : List WriteCondition)
    → (check_conditions prev_value conditions ≡ ok tt) ↔ All (Satisfied prev_value) conditions
check_conditions-All prev_value conditions =
    let i = eval_conditions-none_iff prev_value conditions in
    ((λ h. i.0 (by_index (eval_conditions prev_value conditions) h)), λ h. rw (i.1 h) refl)
  where
    by_index :
        (r : Result (Option ℕ))
        → (r >>= λ failed. elim failed as (λ _. Result (Unit {0})) [
          | none ↦ ok tt
          | some idx ↦ err (cas_failed 0 idx prev_value)
        ])
          ≡ ok tt
        → r ≡ ok none
    by_index (err e) h = cc
    by_index (ok none) h = refl
    by_index (ok (some idx)) h = cc

module _ (codec : IntentCodec) (engine : GroupEngine) (shard_id start_version : ℕ)
    (desc : ShardDesc) (known : engine.shard_descs shard_id ≡ some desc) (put : PutRequest)
    (prev_value : Option Value) where
  -- The batch of the put: nothing if its intent is there already, or else one intent that holds what the put
  -- writes.
  abbrev pub PutBatch : Bool → Option WriteBatch → Type 0
  PutBatch true batch = batch ≡ none
  PutBatch false batch =
      All (Satisfied prev_value) put.conditions
      × ((content : Option Bytes) × Puts put.put_type prev_value put.value content
          × (batch
              ≡ some (
                  write_ops (
                    some (
                      intent_row desc.table_id put.key
                        (codec.encode (put_intent start_version content)))))))

  abbrev pub PutAnswer : Bool → Option WriteBatch × WriteResponse → Type 0
  PutAnswer skip_write (batch, response) =
      NoConflict put start_version prev_value
      × PutBatch skip_write batch
      × (response ≡ record { prev_value = if put.take_prev_value then prev_value else none })

  abbrev answer_of : WriteResponse
  answer_of = record { prev_value = if put.take_prev_value then prev_value else none }

  abbrev batch_of : Option Bytes → WriteBatch
  batch_of content =
      write_ops
        (some (intent_row desc.table_id put.key (codec.encode (put_intent start_version content))))

  put-batch_of :
      (content : Option Bytes)
      → Group.put engine [] shard_id put.key
          (codec.encode (put_intent start_version content))
          txn_intent_version
        ≡ ok (batch_of content)
  unfolding Group.put
  put-batch_of content = ground arith

  intent_batch-PutBatch :
      (wb : WriteBatch)
      → intent_batch codec engine shard_id start_version prev_value (put_request put) ≡ ok wb
      → PutBatch false (eval_result wb)
  unfolding intent_batch
  intent_batch-PutBatch wb h =
      let write = λ (content : Option Bytes).
        Group.put engine [] shard_id put.key (codec.encode (put_intent start_version content))
          txn_intent_version in
      let c =
        >>=-eq-ok (check_conditions prev_value put.conditions)
          (λ _. apply_put_op put.put_type prev_value put.value >>= write) h in
      let a = >>=-eq-ok (apply_put_op put.put_type prev_value put.value) write c.2 in
      (
        (check_conditions-All prev_value put.conditions).0 c.1,
        (
          a.0,
          (apply_put_op-Puts put.put_type prev_value put.value a.0).0 a.1,
          ap eval_result (sym (ok-eq (sym (put-batch_of a.0) ∙ a.2))),
        ),
      )

  PutBatch-intent_batch :
      (content : Option Bytes)
      → All (Satisfied prev_value) put.conditions
      → Puts put.put_type prev_value put.value content
      → intent_batch codec engine shard_id start_version prev_value (put_request put)
        ≡ ok (batch_of content)
  unfolding intent_batch
  PutBatch-intent_batch content c p =
      rw
        (
          (check_conditions-All prev_value put.conditions).1 c,
          (apply_put_op-Puts put.put_type prev_value put.value content).1 p,
        )
        (put-batch_of content)

  -- A put succeeds exactly where the key was not committed after the transaction started, or the put is an
  -- addition without conditions, and besides, unless its intent is there already, every condition holds of the
  -- previous value and what an addition adds up are numbers. It then writes one intent, of the request's value, of
  -- nothing for a `nop`, or of the sum, and nothing where its intent is there already; it answers with the previous
  -- value if that was asked for. The shard is known to the group.
  pub write_on-put :
      (skip_write : Bool) (r : Option WriteBatch × WriteResponse)
      → (write_on codec engine shard_id start_version prev_value skip_write (put_request put)
          ≡ ok r)
        ↔ PutAnswer skip_write r
  unfolding write_on
  write_on-put true (batch, answer) = (
    (λ h.
        let c =
          >>=-eq-ok (check_conflict (put_request put) start_version prev_value)
            (λ _. ok (eval_result [], answer_of)) h in
        let e = ok-eq c.2 in
        (
          (check_conflict-NoConflict put start_version prev_value).0 c.1,
          sym (ap (λ x. x.0) e),
          sym (ap (λ x. x.1) e),
        )),
    λ (n, b, a). rw ((check_conflict-NoConflict put start_version prev_value).1 n, b, a) refl,
  )
  write_on-put false (batch, answer) = (
    (λ h.
        let intent =
          intent_batch codec engine shard_id start_version prev_value (put_request put) in
        let c =
          >>=-eq-ok (check_conflict (put_request put) start_version prev_value)
            (λ _. intent >>= λ wb. ok (eval_result wb, answer_of)) h in
        let b = >>=-eq-ok intent (λ wb. ok (eval_result wb, answer_of)) c.2 in
        let e = ok-eq b.2 in
        (
          (check_conflict-NoConflict put start_version prev_value).0 c.1,
          subst (PutBatch false) (ap (λ x. x.0) e) (intent_batch-PutBatch b.0 b.1),
          sym (ap (λ x. x.1) e),
        )),
    λ (n, (c, (content, p, b)), a).
        rw
          (
            (check_conflict-NoConflict put start_version prev_value).1 n,
            PutBatch-intent_batch content c p,
            b,
            a,
          )
          refl,
  )
