-- ===== src/Examples/AfterCommit.antt =====
-- The commit and the abort of the intent on "b", and what a reader sees after the batch is written.
use sekv.Prelude.{◌≡◌, refl, none, some, List, [], ◌∷◌, map, arith}
use sekv.Prelude.Bytes.{cmp, to_le_bytes, eq_bytes}
use sekv.Api.{put_intent, CommitIntentRequest, ClearIntentRequest, committed, aborted}
use sekv.Engine.Rows.{Row}
use sekv.Result.{ok}
use sekv.Engine.Rows.Seek.{versions}
use sekv.Engine.Rows.Apply.Records.{pair, Written, write_batch, items_from}
use sekv.Engine.Group.{GroupEngine, WriteBatch}
use sekv.Eval.Forward.{moving_to}
use sekv.Eval.Get
use sekv.Eval.Get.{txn_intent_version, read_key}
use sekv.Eval.Get.Visible.{newest_visible}
use sekv.Eval.Txn.{commit_intent, clear_intent}
use sekv.Eval.Txn.Commit.{
  committed_row, write_ops, delete_intent, commit_intent-eq, clear_intent-eq,
}
use sekv.Eval.Txn.AfterCommit.{with_row, read_key-commit_intent, read_key-clear_intent}
use sekv.Examples.Store.{codec, key_b, b_nonempty, intent, rows, desc, ctx, engine, holds}

abbrev resolve : Get.Resolve
resolve shard_id key start intent_start = ok none

abbrev commit : CommitIntentRequest
commit = record { shard_id = 1; start_version = 30; commit_version = 40; user_key = key_b }

abbrev clear : ClearIntentRequest
clear = record { shard_id = 1; start_version = 30; user_key = key_b }

abbrev written_with : WriteBatch → GroupEngine
written_with wb = record {
  shard_descs = engine.shard_descs;
  seek = λ key. items_from key (write_batch wb (map pair rows));
}

written_with-Written : (wb : WriteBatch) → Written wb (map pair rows) engine (written_with wb)
written_with-Written wb = record { same_shards = λ id. refl; seeks = λ key. refl }

stays : moving_to ctx 1 ≡ ok none
unfolding moving_to
stays = refl

abbrev pending : Row
pending = record {
  table_id = 1;
  key = key_b;
  version = txn_intent_version;
  content = some (codec.encode intent);
}

abbrev older : List Row
older = record { table_id = 1; key = key_b; version = 5; content = some (8 ∷ []) } ∷ []

found : versions 1 key_b rows ≡ pending ∷ older
unfolding versions eq_bytes cmp to_le_bytes put_intent
found = refl

abbrev commit_batch : WriteBatch
commit_batch = delete_intent 1 key_b ∷ write_ops (committed_row 1 key_b 40 intent)

abbrev clear_batch : WriteBatch
clear_batch = delete_intent 1 key_b ∷ []

commits :
    commit_intent codec ctx engine none commit ≡ ok (some commit_batch, some (committed, some 40))
unfolding versions eq_bytes cmp to_le_bytes put_intent
commits = commit_intent-eq codec engine rows ctx none desc holds commit refl b_nonempty stays

clears : clear_intent codec ctx engine none clear ≡ ok (some clear_batch, some (aborted, none))
unfolding versions eq_bytes cmp to_le_bytes put_intent
clears = clear_intent-eq codec engine rows ctx none desc holds clear refl b_nonempty stays

read_key-commit_intent_example :
    read_key codec resolve 1 key_b 50 (written_with commit_batch)
    ≡ ok (newest_visible 50 (with_row (committed_row 1 key_b 40 intent) older))
read_key-commit_intent_example =
    read_key-commit_intent codec resolve engine (written_with commit_batch) rows ctx none
      (some (committed, some 40)) desc commit_batch holds (written_with-Written commit_batch)
      pending older (codec.encode intent) intent refl refl (codec.decode-encode intent) 50
      (omega arith) commit refl b_nonempty stays found (unfold put_intent in refl) (omega arith, tt)
      (omega arith) commits

read_key-clear_intent_example :
    read_key codec resolve 1 key_b 50 (written_with clear_batch) ≡ ok (newest_visible 50 older)
read_key-clear_intent_example =
    read_key-clear_intent codec resolve engine (written_with clear_batch) rows ctx none
      (some (aborted, none)) desc clear_batch holds (written_with-Written clear_batch) pending older
      (codec.encode intent) intent refl refl (codec.decode-encode intent) 50 (omega arith) clear
      refl b_nonempty stays found (unfold put_intent in refl) (omega arith, tt) clears
