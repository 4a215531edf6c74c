-- ===== src/Eval/Latch/Resolve.antt =====
-- `RemoteLatchGuard::resolve_txn` of server/src/replica/eval/latch.rs: a transaction's intent is committed or
-- cleared by the state of its record. What a round of the loop meets outside the group is in `Rounds`, by the
-- number of the round: the record of the transaction table, what `abort_txn` answers, the clock, and what a
-- waiter on the intent receives. A batch that is returned is the one proposed. Additions wrap round.
pub mod Outcome
use sekv.Prelude.{
  ℕ, zero, suc, ap, ◌∙◌, sym, ◌<◌, ◌≤◌, ◌^◌, ◌∷◌, ◌⊎◌, arith, ◌+◌, ◌%◌, ◌≡◌, refl, ◌≢◌, Bool,
  Bool-cases, inl, inr, true, false, Option, none, some, [], ltb, if◌then◌else◌,
}
use sekv.Prelude.Bytes.{Bytes}
use sekv.Rock.Num.{u64_mod}
use sekv.Api.{Value, TxnIntent, ShardDesc, TxnState, running, aborted, committed}
use sekv.Result.{Error, invalid_data, panicked, Result, ok, err, ◌>>=◌, ok_or}
use sekv.Engine.Group
use sekv.Engine.Group.{GroupEngine, WriteBatch}
use sekv.Eval.Get.{txn_intent_version}
use sekv.Eval.Txn.Commit.{delete_intent, write_ops, committed_row}
use sekv.Client.TxnTable.Record.{TxnRecord}

-- what `abort_txn` answers: `already_final` is its `InvalidArgument`
pub data AbortAnswer : Type 0 where
  abort_done already_final : AbortAnswer
  abort_failed : Error → AbortAnswer

pub record Rounds : Type 0 where
  pub txn_record : ℕ → Result (Option TxnRecord)
  pub abort : ℕ → AbortAnswer
  pub timestamp_millis : ℕ → ℕ
  pub received : ℕ → TxnState × ℕ

-- the state that a round comes to, and whether the intent is still to be deleted
pub record Decided : Type 0 where
  pub state : TxnState
  pub commit_version : ℕ
  pub delete_intent : Bool

abbrev pub or_default : Option ℕ → ℕ
or_default none = 0
or_default (some n) = n

abbrev pub after_abort : AbortAnswer → Result (Option Decided)
after_abort abort_done =
    ok (some (record { state = aborted; commit_version = 0; delete_intent = true }))
after_abort already_final = ok none
after_abort (abort_failed e) = err e

abbrev pub by_record : Rounds → ℕ → TxnState → TxnRecord → Result (Option Decided)
by_record rounds r running txn =
    if ltb ((txn.heartbeat + 500) % u64_mod) (rounds.timestamp_millis r)
    then after_abort (rounds.abort r)
    else ok (
        some (record {
          state = (rounds.received r).0;
          commit_version = (rounds.received r).1;
          delete_intent = false;
        }))
by_record rounds r state txn = ok (
    some (record {
      state = state;
      commit_version = or_default txn.commit_version;
      delete_intent = true;
    }))

-- One round: nothing where the loop goes on.
unfoldable pub decide : Rounds → ℕ → Result (Option Decided)
decide rounds r = do
  found ← rounds.txn_record r
  txn ← ok_or found invalid_data
  by_record rounds r txn.state txn

-- `RemoteLatchManager::commit_intent` and `clear_intent`: the batch that is proposed
unfoldable pub propose_commit : GroupEngine → ℕ → Bytes → TxnIntent → ℕ → Result WriteBatch
unfolding Group.put Group.delete Group.tombstone
propose_commit engine shard_id key intent commit_version = do
  wb ← Group.delete engine [] shard_id key txn_intent_version
  if intent.is_delete
      then Group.tombstone engine wb shard_id key commit_version
      else elim intent.value [
        | none ↦ ok wb
        | some value ↦ Group.put engine wb shard_id key value commit_version
      ]

unfoldable pub propose_clear : GroupEngine → ℕ → Bytes → Result WriteBatch
propose_clear engine shard_id key = Group.delete engine [] shard_id key txn_intent_version

abbrev pub if_deleting : Bool → Result WriteBatch → Result (Option WriteBatch)
if_deleting false batch = ok none
if_deleting true batch = batch >>= λ wb. ok (some wb)

-- the value that the intent commits
abbrev pub committed_value : TxnIntent → ℕ → Value
committed_value intent commit_version =
    if intent.is_delete
    then record { content = none; version = commit_version }
    else record { content = intent.value; version = commit_version }

final_abort : (a : AbortAnswer) → after_abort a ≡ ok none → a ≡ already_final
final_abort abort_done h = absurd cc
final_abort already_final h = refl
final_abort (abort_failed e) h = absurd cc

abbrev pub IsFinal : TxnState → Type 0
IsFinal state = state ≢ running

module _ (rounds : Rounds) (r : ℕ) where
  final_record :
      (state : TxnState) (txn : TxnRecord)
      → by_record rounds r state txn ≡ ok none
      → rounds.abort r ≡ already_final
  final_record committed txn h = absurd cc
  final_record aborted txn h = absurd cc
  final_record running txn h =
      elim (Bool-cases (ltb ((txn.heartbeat + 500) % u64_mod) (rounds.timestamp_millis r))) [
        | inl e ↦ final_abort (rounds.abort r) (rw e at h)
        | inr e ↦
            let d : Decided = record {
              state = (rounds.received r).0;
              commit_version = (rounds.received r).1;
              delete_intent = false;
            } in
            let other : Path (Result (Option Decided)) (ok (some d)) (ok none) = rw e at h in
            absurd cc
      ]

  -- The loop goes on only if the transaction could not be aborted.
  decide-none : decide rounds r ≡ ok none → rounds.abort r ≡ already_final
  unfolding decide
  decide-none = by_answer (rounds.txn_record r)
    where
      by_answer :
          (answer : Result (Option TxnRecord))
          → (answer >>= λ found.
              ok_or found invalid_data >>= λ txn. by_record rounds r txn.state txn)
            ≡ ok none
          → rounds.abort r ≡ already_final
      by_answer (err e) h = absurd cc
      by_answer (ok none) h = absurd cc
      by_answer (ok (some txn)) h = final_record txn.state txn h

  by_final :
      (state : TxnState) (txn : TxnRecord)
      → IsFinal state
      → (d : Decided) × (by_record rounds r state txn ≡ ok (some d))
  by_final running txn n = absurd (n refl)
  by_final aborted txn n = (_, refl)
  by_final committed txn n = (_, refl)

  decide-final :
      (txn : TxnRecord)
      → rounds.txn_record r ≡ ok (some txn)
      → IsFinal txn.state
      → (d : Decided) × (decide rounds r ≡ ok (some d))
  unfolding decide
  decide-final txn h n = let d = by_final txn.state txn n in (d.0, rw h d.1)

abbrev with_value : {A B : Type 0} → B → Option A → Result (Option A × B)
with_value b a = ok (a, b)

one_bind :
    {A B : Type 0} (r : Result A) (b : B)
    → ((r >>= λ a. ok (some a)) >>= λ a. with_value b a) ≡ (r >>= λ a. with_value b (some a))
one_bind (ok a) b = refl
one_bind (err e) b = refl

module _ (engine : GroupEngine) (shard_id : ℕ) (key : Bytes) (intent : TxnIntent) where
  abbrev pub finish : TxnState → Decided → Result (Option WriteBatch × Option Value)
  finish committed d = do
    wb ← if_deleting d.delete_intent (propose_commit engine shard_id key intent d.commit_version)
    ok (wb, some (committed_value intent d.commit_version))
  finish aborted d = do
    wb ← if_deleting d.delete_intent (propose_clear engine shard_id key)
    ok (wb, none)
  finish running d = err panicked

  -- The loop from a round on; with no fuel left there is no result.
  unfoldable pub resolve_from : Rounds → ℕ → ℕ → Option (Result (Option WriteBatch × Option Value))
  unfolding decide
  resolve_from rounds zero r = none
  resolve_from rounds (suc fuel) r = elim (decide rounds r) [
    | err e ↦ some (err e)
    | ok none ↦ resolve_from rounds fuel (suc r)
    | ok (some d) ↦ some (finish d.state d)
  ]

  -- The loop takes two rounds at most, if the record of a transaction that cannot be aborted any more is there in
  -- the next round and says that it is committed or aborted.
  pub resolve_from-ends :
      (rounds : Rounds) (fuel r : ℕ)
      → (rounds.abort r ≡ already_final
          → (txn : TxnRecord) × (rounds.txn_record (suc r) ≡ ok (some txn)) × IsFinal txn.state)
      → (result : Result (Option WriteBatch × Option Value)) × (resolve_from rounds
            (suc (suc fuel))
            r
          ≡ some result)
  unfolding resolve_from
  resolve_from-ends rounds fuel r final = first (decide rounds r) refl
    where
      first :
          (d : Result (Option Decided))
          → decide rounds r ≡ d
          → (result : Result (Option WriteBatch × Option Value)) × (resolve_from rounds
                (suc (suc fuel))
                r
              ≡ some result)
      first (err e) h = (err e, rw (resolve_from, h) refl)
      first (ok (some d)) h = (finish d.state d, rw (resolve_from, h) refl)
      first (ok none) h =
          let next = final (decide-none rounds r h) in
          let d = decide-final rounds (suc r) next.0 next.1 next.2 in
          (finish (Decided.state d.0) d.0, rw (resolve_from, h, d.1) refl)
