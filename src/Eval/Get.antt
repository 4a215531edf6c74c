-- ===== src/Eval/Get.antt =====
-- server/src/replica/eval/cmd_get.rs. `resolve` is `LatchManager::resolve_txn`: the shard, the key, the
-- version that reads and the start version of the intent, and what the intent resolved to. The
-- snapshot is taken before, so what a resolution writes does not show in it.
pub mod Visible
pub mod Isolation
use sekv.Prelude.{ℕ, zero, suc, Option, none, some, List, [], ◌∷◌, leb, ◌==◌, if◌then◌else◌, length}
use sekv.Prelude.Bytes.{Bytes}
use sekv.Api.{Value, TxnIntent, IntentCodec, ExecCtx, ShardGetRequest}
use sekv.Result.{Result, ok, err, invalid_data, decode_error, ◌>>=◌, ok_or}
use sekv.Engine.Keys.{u64_max}
use sekv.Engine.Entry.{MvccEntry, entry_version, entry_value, to_value}
use sekv.Engine.Snapshot.{Snapshot, of_key, next_mvcc_iterator, next_mvcc_entry}
use sekv.Engine.Group.{GroupEngine, snapshot}
use sekv.Eval.Forward.{forward_or}

-- `TXN_INTENT_VERSION` of schema/src/system/txn.rs
abbrev pub txn_intent_version : ℕ
txn_intent_version = u64_max

abbrev pub Resolve : Type 0
Resolve = ℕ → Bytes → ℕ → ℕ → Result (Option Value)

-- `value.version <= start_version` of a resolved intent
abbrev pub visible : ℕ → Option Value → Option Value
visible start_version none = none
visible start_version (some value) = if leb value.version start_version then some value else none

module _ (codec : IntentCodec) (resolve : Resolve) (shard_id : ℕ) (key : Bytes)
    (start_version : ℕ) where
  unfoldable pub read_intent : MvccEntry → Result (Option Value)
  read_intent entry = do
    content ← entry_value entry
    value ← ok_or content invalid_data
    intent ← ok_or (codec.decode value) decode_error
    if leb intent.start_version start_version
        then (do
          resolved ← resolve shard_id key start_version intent.start_version
          ok (visible start_version resolved))
        else ok none

  unfoldable pub read_entry : MvccEntry → Result (Option Value)
  unfolding read_intent
  read_entry entry =
      if entry_version entry == txn_intent_version
      then read_intent entry
      else if leb (entry_version entry) start_version
      then (do value ← to_value entry; ok (some value))
      else ok none

  -- the `for entry in iter?` loop
  unfoldable pub read_entries : ℕ → Snapshot → Result (Option Value)
  read_entries zero s = ok none
  read_entries (suc fuel) s =
      let (r, s') = next_mvcc_entry s in
      elim r [
        | none ↦ ok none
        | some (err e) ↦ err e
        | some (ok entry) ↦ elim (read_entry entry) [
          | err e ↦ err e
          | ok (some value) ↦ ok (some value)
          | ok none ↦ read_entries fuel s'
        ]
      ]

  unfoldable pub read_key : GroupEngine → Result (Option Value)
  read_key engine = do
    s ← snapshot engine shard_id (of_key key)
    let (r, s') = next_mvcc_iterator s
    elim r [
      | none ↦ ok none
      | some (err e) ↦ err e
      | some (ok u) ↦ read_entries (suc (suc (length s'.core.db_iter))) s'
    ]

unfoldable pub get :
    IntentCodec → Resolve → ExecCtx → GroupEngine → ShardGetRequest → Result (Option Value)
unfolding forward_or
get codec resolve exec_ctx engine req =
    forward_or exec_ctx engine req.shard_id (req.user_key ∷ [])
      (read_key codec resolve req.shard_id req.user_key req.start_version engine)
