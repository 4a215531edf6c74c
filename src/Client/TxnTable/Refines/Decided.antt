-- ===== src/Client/TxnTable/Refines/Decided.antt =====
-- Any interleaving of the operations of client/src/txn_table.rs on one transaction, whichever clients call them.
use sekv.Prelude.{
  ℕ, ◌≡◌, refl, Bool, true, false, ◌&&◌, ◌||◌, arith, Option, none, some, List, [], ◌∷◌,
}
use sekv.Api.{TxnState, running, aborted, committed}
use sekv.Client.Error.{ClientResult, ok, err}
use sekv.Client.TxnTable.{Cluster}
use sekv.Client.TxnTable.Refines.{Store, Serves}
use sekv.Client.TxnTable.Refines.Sends.{
  TxnOp, begin_op, heartbeat_op, abort_op, commit_op, next_state, result_of, HoldsState, run,
  state_key_of,
}
use sekv.Client.TxnTable.Refines.Steps.{run-Stepped}

-- An operation with what it returned.
pub record Event : Type 0 where
  pub op : TxnOp
  pub result : ClientResult (Unit {0})

abbrev returned_ok : ClientResult (Unit {0}) → Bool
returned_ok (ok u) = true
returned_ok (err e) = false

abbrev is_commit : TxnOp → Bool
is_commit (commit_op v) = true
is_commit _ = false

abbrev is_abort : TxnOp → Bool
is_abort abort_op = true
is_abort _ = false

abbrev pub some_commit : List Event → Bool
some_commit [] = false
some_commit (e ∷ events) = (is_commit e.op && returned_ok e.result) || some_commit events

abbrev pub some_abort : List Event → Bool
some_abort [] = false
some_abort (e ∷ events) = (is_abort e.op && returned_ok e.result) || some_abort events

abbrev expected : List TxnOp → Option TxnState → List Event
expected [] state = []
expected (op ∷ ops) state =
    record { op = op; result = result_of op state } ∷ expected ops (next_state op state)

committed_stays : (ops : List TxnOp) → some_abort (expected ops (some committed)) ≡ false
committed_stays [] = refl
committed_stays (begin_op ∷ ops) = committed_stays ops
committed_stays (heartbeat_op ∷ ops) = committed_stays ops
committed_stays (abort_op ∷ ops) = committed_stays ops
committed_stays (commit_op c ∷ ops) = committed_stays ops

aborted_stays : (ops : List TxnOp) → some_commit (expected ops (some aborted)) ≡ false
aborted_stays [] = refl
aborted_stays (begin_op ∷ ops) = aborted_stays ops
aborted_stays (heartbeat_op ∷ ops) = aborted_stays ops
aborted_stays (abort_op ∷ ops) = aborted_stays ops
aborted_stays (commit_op c ∷ ops) = aborted_stays ops

abbrev pub Exclusive : List Event → Type 0
Exclusive events = (some_commit events && some_abort events) ≡ false

expected-Exclusive : (ops : List TxnOp) (state : Option TxnState) → Exclusive (expected ops state)
expected-Exclusive ops (some committed) = ground (arith, committed_stays ops)
expected-Exclusive ops (some aborted) = ground (arith, aborted_stays ops)
expected-Exclusive [] state = refl
expected-Exclusive (begin_op ∷ ops) none = expected-Exclusive ops (some running)
expected-Exclusive (heartbeat_op ∷ ops) none = expected-Exclusive ops none
expected-Exclusive (abort_op ∷ ops) none = expected-Exclusive ops none
expected-Exclusive (commit_op c ∷ ops) none = expected-Exclusive ops none
expected-Exclusive (begin_op ∷ ops) (some running) = expected-Exclusive ops (some running)
expected-Exclusive (heartbeat_op ∷ ops) (some running) = expected-Exclusive ops (some running)
expected-Exclusive (abort_op ∷ ops) (some running) = ground (arith, aborted_stays ops)
expected-Exclusive (commit_op c ∷ ops) (some running) = ground (arith, committed_stays ops)

abbrev then_events : {S : Type 0} → Event → Option (List Event × S) → Option (List Event × S)
then_events e none = none
then_events e (some (events, s)) = some (e ∷ events, s)

module _ {S : Type 0} (cluster : Cluster S) (timeout : Option ℕ) (n : ℕ) (t : ℕ) where
  -- The operations one after the other; there is no result if one of them has none.
  unfoldable pub run_all : List TxnOp → S → Option (List Event × S)
  run_all [] s = some ([], s)
  run_all (op ∷ ops) s = elim (run cluster timeout n t op s) [
    | none ↦ none
    | some (result, s') ↦ then_events (record { op = op; result = result }) (run_all ops s')
  ]

  module _ (store : S → Store) (serves : Serves cluster store) where
    run_all-expected :
        (ops : List TxnOp) (state : Option TxnState) (s : S)
        → HoldsState state (store s (state_key_of cluster t))
        → (s' : S) × (run_all ops s ≡ some (expected ops state, s'))
    unfolding run_all
    run_all-expected [] state s h = (s, refl)
    run_all-expected (op ∷ ops) state s h =
        let r = run-Stepped cluster store serves timeout n t op state s h in
        let rest = run_all-expected ops (next_state op state) r.0 r.2 in
        (rest.0, rw (run_all, r.1, rest.1) refl)

    -- However the operations on one transaction interleave, all of them return, and a commit and an abort never
    -- both succeed. The group of the table answers the writes, and the state's key holds one of the states or
    -- nothing at first.
    pub run_all-Exclusive :
        (ops : List TxnOp) (state : Option TxnState) (s : S)
        → HoldsState state (store s (state_key_of cluster t))
        → (events : List Event) × (s' : S) × (run_all ops s ≡ some (events, s')) × Exclusive events
    run_all-Exclusive ops state s h =
        let r = run_all-expected ops state s h in
        (expected ops state, r.0, r.1, expected-Exclusive ops state)
