-- ===== src/Eval/Txn/AfterCommit.antt =====
-- What readers see once rocksdb has written the batch of a commit or of an abort.
use sekv.Prelude.{
  ℕ, ◌<◌, ◌≡◌, refl, ◌≢◌, ap, ◌∙◌, sym, Bool, true, false, Option, none, some, List, [], ◌∷◌, map,
  arith, All,
}
use mathlib.Core.Path.{subst}
use sekv.Prelude.Bytes.{Bytes, eq_bytes_refl, to_le_bytes}
use sekv.Api.{TxnIntent, IntentCodec, ExecCtx, ShardDesc, CommitIntentRequest, ClearIntentRequest}
use sekv.Result.{ok}
use sekv.Engine.Group.{GroupEngine, WriteBatch}
use sekv.Engine.Rows.{Row, IsRow}
use sekv.Engine.Rows.Seek.{is_row_of, versions, IsDescending, versions-IsDescending}
use sekv.Engine.Rows.Apply.{
  RowOp, put_row, delete_row, apply, IsRowOp, apply-IsSorted, apply-IsRow, remove_row,
}
use sekv.Engine.Rows.Apply.Records.{
  Written, record_of, pair, items_from, map-apply, items_from-rows,
}
use sekv.Engine.Rows.Apply.Versions.{versions-insert, versions-remove, without}
use sekv.Engine.Group.Reads.{Holds}
use sekv.Eval.Forward.{moving_to}
use sekv.Eval.Get
use sekv.Eval.Get.{txn_intent_version, read_key}
use sekv.Eval.Get.Visible.{newest_visible}
use sekv.Eval.Get.Isolation.{NoIntent, read_key-eq, visible_version-committed}
use sekv.Eval.Txn.{GuardState, commit_intent, clear_intent}
use sekv.Eval.Txn.Reads.{target_intent}
use sekv.Eval.Txn.Commit.{committed_row, write_ops, intent_row, commit_intent-eq, clear_intent-eq}

written-Holds :
    (engine engine' : GroupEngine) (ops : List RowOp) (rows : List Row)
    → Written (map record_of ops) (map pair rows) engine engine'
    → All IsRowOp ops
    → Holds engine rows
    → Holds engine' (apply ops rows)
written-Holds engine engine' ops rows w a h = record {
  valid = apply-IsRow ops rows a h.valid;
  sorted = apply-IsSorted ops rows h.sorted;
  seeks = λ key.
      w.seeks key
      ∙ ap (items_from key) (sym (map-apply ops rows))
      ∙ items_from-rows key (apply ops rows);
}

abbrev own_row : ℕ → Bytes → ℕ → Option Bytes → Row
own_row t key version content = record {
  table_id = t;
  key = key;
  version = version;
  content = content;
}

own_row-is_row_of :
    (t : ℕ) (key : Bytes) (version : ℕ) (content : Option Bytes)
    → is_row_of t key (own_row t key version content) ≡ true
own_row-is_row_of t key version content =
    rw (eq_bytes_refl (to_le_bytes 8 t), eq_bytes_refl key) refl

without-older :
    (n : ℕ) (older : List Row) → All (λ r. r.version < n) older → without n older ≡ older
without-older n [] a = refl
without-older n (r ∷ older) a = ground (arith, without-older n older a.1)

without-newest :
    (n : ℕ) (r : Row) (older : List Row)
    → r.version ≡ n
    → IsDescending (r ∷ older)
    → without n (r ∷ older) ≡ older
without-newest n r older e d =
    let a : All (λ s. s.version < n) older = rw (← e) (d.0) in
    ground (arith, without-older n older a)

module _ (t : ℕ) (key : Bytes) (nonempty : key ≢ []) (rows : List Row) (valid : All IsRow rows)
    (newest : Row) (older : List Row) (found : versions t key rows ≡ newest ∷ older)
    (pending : newest.version ≡ txn_intent_version)
    (descending : IsDescending (newest ∷ older)) where
  abbrev intent_gone : List Row
  intent_gone = remove_row (intent_row t key []) rows

  -- The delete of the intent leaves the versions behind it.
  versions-intent_gone : versions t key intent_gone ≡ older
  versions-intent_gone =
      versions-remove t key (intent_row t key []) rows
        (record { key_nonempty = nonempty; version_fits = omega arith }) valid
        (own_row-is_row_of t key txn_intent_version (some []))
      ∙ rw found (without-newest txn_intent_version newest older pending descending)

abbrev pub with_row : Option Row → List Row → List Row
with_row none older = older
with_row (some r) older = r ∷ older

abbrev put_ops : Option Row → List RowOp
put_ops none = []
put_ops (some r) = put_row r ∷ []

abbrev Fresh : ℕ → Bytes → List Row → Row → Type 0
Fresh t key older r = IsRow r × (is_row_of t key r ≡ true) × All (λ s. s.version < r.version) older

abbrev FreshRow : ℕ → Bytes → List Row → Option Row → Type 0
FreshRow t key older none = Unit
FreshRow t key older (some r) = Fresh t key older r

put_ops-IsRowOp :
    (t : ℕ) (key : Bytes) (older : List Row) (r : Option Row)
    → FreshRow t key older r
    → All IsRowOp (put_ops r)
put_ops-IsRowOp t key older none f = tt
put_ops-IsRowOp t key older (some r) f = (f.0, tt)

versions-put_ops :
    (t : ℕ) (key : Bytes) (rows older : List Row) (r : Option Row)
    → All IsRow rows
    → versions t key rows ≡ older
    → FreshRow t key older r
    → versions t key (apply (put_ops r) rows) ≡ with_row r older
versions-put_ops t key rows older none h e f = e
versions-put_ops t key rows older (some r) h e f =
    versions-insert t key r rows f.0 h f.1 (rw e (f.2)) ∙ rw e refl

module _ (codec : IntentCodec) (resolve : Get.Resolve) (engine engine' : GroupEngine)
    (rows : List Row) (exec_ctx : ExecCtx) (guard guard' : GuardState) (desc : ShardDesc)
    (wb : WriteBatch) (holds : Holds engine rows)
    (written : Written wb (map pair rows) engine engine') (newest : Row) (older : List Row)
    (content : Bytes) (intent : TxnIntent) (pending : newest.version ≡ txn_intent_version)
    (holding : newest.content ≡ some content) (decoded : codec.decode content ≡ some intent)
    (start_version : ℕ) (reads : start_version < txn_intent_version) where
  own_target :
      (shard_id : ℕ) (key : Bytes)
      → target_intent codec shard_id key intent.start_version (newest ∷ older) ≡ ok (some intent)
  own_target shard_id key = ground (arith, decoded)

  read_key-with_row :
      (shard_id : ℕ) (key : Bytes) (r : Option Row)
      → engine.shard_descs shard_id ≡ some desc
      → key ≢ []
      → versions desc.table_id key rows ≡ newest ∷ older
      → FreshRow desc.table_id key older r
      → NoIntent (with_row r older)
      → wb ≡ map record_of (delete_row (intent_row desc.table_id key []) ∷ put_ops r)
      → read_key codec resolve shard_id key start_version engine'
        ≡ ok (newest_visible start_version (with_row r older))
  read_key-with_row shard_id key r known nonempty found fresh committed e =
      let t = desc.table_id in
      let after : versions t key (apply (delete_row (intent_row t key []) ∷ put_ops r) rows)
          ≡ with_row r older =
        versions-put_ops t key (remove_row (intent_row t key []) rows) older r
          (apply-IsRow (delete_row (intent_row t key []) ∷ []) rows (tt, tt) holds.valid)
          (versions-intent_gone t key nonempty rows holds.valid newest older found pending (
            subst (λ x. IsDescending x) found
              (versions-IsDescending t key nonempty rows holds.valid holds.sorted)))
          fresh in
      read_key-eq codec resolve start_version engine'
        (apply (delete_row (intent_row t key []) ∷ put_ops r) rows) shard_id desc key
        (written-Holds engine engine' (delete_row (intent_row t key []) ∷ put_ops r) rows
          (subst (λ b. Written b (map pair rows) engine engine') e written)
          (tt, put_ops-IsRowOp t key older r fresh) holds)
        (written.same_shards shard_id ∙ known) nonempty reads
      ∙ rw after (
          visible_version-committed codec resolve shard_id key start_version (with_row r older)
            committed)

  abbrev Facts : Bytes → ℕ → TxnIntent → Type 0
  Facts key version i =
      let r = committed_row desc.table_id key version i in
      FreshRow desc.table_id key older r
      × NoIntent (with_row r older)
      × (write_ops r ≡ map record_of (put_ops r))

  All-committed :
      (version : ℕ) (rs : List Row)
      → version < txn_intent_version
      → All (λ s. s.version < version) rs
      → NoIntent rs
  All-committed version [] h a = tt
  All-committed version (s ∷ rs) h a = (omega (arith, a.0), All-committed version rs h a.1)

  committed-Facts :
      (key : Bytes) (version start : ℕ) (d : Bool) (v : Option Bytes)
      → key ≢ []
      → version < txn_intent_version
      → All (λ s. s.version < version) older
      → Facts key version (record { start_version = start; is_delete = d; value = v })
  committed-Facts key version start true v n h a = (
    (
      record { key_nonempty = n; version_fits = omega arith },
      own_row-is_row_of desc.table_id key version none,
      a,
    ),
    (h, All-committed version older h a),
    refl,
  )
  committed-Facts key version start false none n h a = (tt, All-committed version older h a, refl)
  committed-Facts key version start false (some v) n h a = (
    (
      record { key_nonempty = n; version_fits = omega arith },
      own_row-is_row_of desc.table_id key version (some v),
      a,
    ),
    (h, All-committed version older h a),
    refl,
  )

  -- Once the batch that `commit_intent` returns is written, readers see the committed value from the commit
  -- version on, and below it what they would see without the intent. The shard stays; the newest version of
  -- the key is the intent of the request's transaction; the committed versions are older than the commit
  -- version, which is no intent's version, as the reader's is not.
  pub read_key-commit_intent :
      (req : CommitIntentRequest)
      → engine.shard_descs req.shard_id ≡ some desc
      → req.user_key ≢ []
      → moving_to exec_ctx req.shard_id ≡ ok none
      → versions desc.table_id req.user_key rows ≡ newest ∷ older
      → intent.start_version ≡ req.start_version
      → All (λ s. s.version < req.commit_version) older
      → req.commit_version < txn_intent_version
      → commit_intent codec exec_ctx engine guard req ≡ ok (some wb, guard')
      → read_key codec resolve req.shard_id req.user_key start_version engine'
        ≡ ok (
            newest_visible start_version
              (with_row (committed_row desc.table_id req.user_key req.commit_version intent) older))
  read_key-commit_intent req known nonempty stays found same newer fits h =
      let facts =
        committed-Facts req.user_key req.commit_version intent.start_version intent.is_delete
          intent.value nonempty fits newer in
      let target : target_intent codec req.shard_id req.user_key req.start_version
            (versions desc.table_id req.user_key rows)
          ≡ ok (some intent) =
        rw (found, ← same) (own_target req.shard_id req.user_key) in
      let batch =
        commit_intent-eq codec engine rows exec_ctx guard desc holds req known nonempty stays in
      read_key-with_row req.shard_id req.user_key
        (committed_row desc.table_id req.user_key req.commit_version intent) known nonempty found
        facts.0 facts.1 (ground (arith, target, batch, facts.2))

  -- Once the batch that `clear_intent` returns is written, readers see the newest committed version that is
  -- not newer than they are, as if the intent had not been written. The shard stays; the newest version of the
  -- key is the intent of the request's transaction, and the others are committed.
  pub read_key-clear_intent :
      (req : ClearIntentRequest)
      → engine.shard_descs req.shard_id ≡ some desc
      → req.user_key ≢ []
      → moving_to exec_ctx req.shard_id ≡ ok none
      → versions desc.table_id req.user_key rows ≡ newest ∷ older
      → intent.start_version ≡ req.start_version
      → NoIntent older
      → clear_intent codec exec_ctx engine guard req ≡ ok (some wb, guard')
      → read_key codec resolve req.shard_id req.user_key start_version engine'
        ≡ ok (newest_visible start_version older)
  read_key-clear_intent req known nonempty stays found same committed h =
      let target : target_intent codec req.shard_id req.user_key req.start_version
            (versions desc.table_id req.user_key rows)
          ≡ ok (some intent) =
        rw (found, ← same) (own_target req.shard_id req.user_key) in
      let batch =
        clear_intent-eq codec engine rows exec_ctx guard desc holds req known nonempty stays in
      read_key-with_row req.shard_id req.user_key none known nonempty found tt committed
        (ground (arith, target, batch))
