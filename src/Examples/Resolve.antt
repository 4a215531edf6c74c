-- ===== src/Examples/Resolve.antt =====
-- The intent on "b" is resolved: by the record of a committed transaction, and after an abort that came too late.
use sekv.Prelude.{◌==◌, ◌≡◌, refl, Option, none, some, if◌then◌else◌}
use sekv.Api.{Value, running, committed}
use sekv.Result.{Result, ok}
use sekv.Engine.Group.{WriteBatch}
use sekv.Client.TxnTable.Record.{TxnRecord}
use sekv.Eval.Latch.Resolve.{Rounds, already_final, resolve_from, resolve_from-ends}
use sekv.Examples.Store.{engine, key_b, intent}

abbrev done : TxnRecord
done = record { start_version = 30; state = committed; heartbeat = 100; commit_version = some 40 }

abbrev expired : TxnRecord
expired = record { start_version = 30; state = running; heartbeat = 100; commit_version = none }

-- The transaction commits between the read of its record and its abort.
abbrev rounds : Rounds
rounds = record {
  txn_record = λ r. if r == 0 then ok (some expired) else ok (some done);
  abort = λ r. already_final;
  timestamp_millis = λ r. 1000;
  received = λ r. (committed, 40);
}

resolve_from-ends_example :
    (result : Result (Option WriteBatch × Option Value)) × (resolve_from engine 1 key_b intent
        rounds 2 0
      ≡ some result)
resolve_from-ends_example =
    resolve_from-ends engine 1 key_b intent rounds 0 0 (λ e. (done, refl, λ e. cc))
