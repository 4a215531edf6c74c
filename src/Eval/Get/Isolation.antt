-- ===== src/Eval/Get/Isolation.antt =====
-- Reads of a column family: which version `read_key` and `get` return.
use sekv.Prelude.{
  ℕ, ◌≤◌, ◌<◌, ◌≡◌, refl, ◌≢◌, ◌∙◌, sym, ◌⊎◌, ◌==◌, if◌then◌else◌, Bool-cases, inl, inr, Option,
  none, some, List, [], ◌∷◌, map, arith, All, leb,
}
use mathlib.Core.Path.{subst}
use sekv.Prelude.Bytes.{Bytes}
use sekv.Api.{Value, TxnIntent, IntentCodec, ExecCtx, ShardDesc, MoveShardDesc, ShardGetRequest}
use sekv.Result.{Result, ok, err, forward, decode_error, ◌>>=◌, ok_or}
use sekv.Engine.Keys.{raw}
use sekv.Engine.Rows.{Row, IsRow, value}
use sekv.Engine.Rows.Seek.{
  rows_from, versions, leading-rows_from, IsDescending, versions-IsDescending, All-versions,
}
use sekv.Engine.Group.{GroupEngine}
use sekv.Engine.Group.Reads.{Holds, snapshot-target, valid_from, get_all_versions-eq-versions}
use sekv.Eval.Forward.{moving_to, forward_or, payloads_of}
use sekv.Eval.Get.{txn_intent_version, Resolve, read_key, get}
use sekv.Eval.Get.Visible.{
  newest_visible, in_time, resolved_intent, or_older, visible_version, read_from-rows,
  read_rows-visible_version,
}

-- No version of the key is an intent.
abbrev pub NoIntent : List Row → Type 0
NoIntent rows = All (λ r. r.version < txn_intent_version) rows

-- The value is the one that a row stores.
abbrev pub IsStored : List Row → Value → Type 0
IsStored [] v = ⊥
IsStored (r ∷ rows) v = (v ≡ record { content = r.content; version = r.version }) ⊎ IsStored rows v

-- `found` is stored, and the newest of the versions that are not newer than the reader; nothing is found where
-- every version is newer.
abbrev pub IsNewestVisible : ℕ → List Row → Option Value → Type 0
IsNewestVisible start_version rows none = All (λ r. start_version < r.version) rows
IsNewestVisible start_version rows (some v) =
    IsStored rows v
    × (v.version ≤ start_version)
    × All (λ r. r.version ≤ start_version → r.version ≤ v.version) rows

IsNewestVisible-older :
    (s : ℕ) (rows : List Row) (r : Row) (v : Option Value)
    → s < r.version
    → IsNewestVisible s rows v
    → IsNewestVisible s (r ∷ rows) v
IsNewestVisible-older s rows r none h i = (h, i)
IsNewestVisible-older s rows r (some v) h i = (inr i.0, i.1, (λ e. absurd (omega arith), i.2))

All-le :
    (s n : ℕ) (rows : List Row)
    → All (λ r. r.version < n) rows
    → All (λ r. r.version ≤ s → r.version ≤ n) rows
All-le s n [] h = tt
All-le s n (r ∷ rows) h = (λ e. omega arith, All-le s n rows h.1)

newest_visible-IsNewestVisible :
    (s : ℕ) (rows : List Row) → IsDescending rows → IsNewestVisible s rows (newest_visible s rows)
newest_visible-IsNewestVisible s [] d = tt
newest_visible-IsNewestVisible s (r ∷ rows) d = elim (Bool-cases (leb r.version s)) [
  | inl b ↦ rw b (inl refl, ground arith, (λ e. omega arith, All-le s r.version rows d.0))
  | inr b ↦ rw b (
      IsNewestVisible-older s rows r (newest_visible s rows) (ground arith)
        (newest_visible-IsNewestVisible s rows d.1))
]

-- A value that is returned is not newer than the reader.
abbrev pub IsInTime : ℕ → Result (Option Value) → Type 0
IsInTime start_version (err e) = Unit
IsInTime start_version (ok none) = Unit
IsInTime start_version (ok (some v)) = v.version ≤ start_version

newest_visible-IsInTime : (s : ℕ) (rows : List Row) → IsInTime s (ok (newest_visible s rows))
newest_visible-IsInTime s [] = tt
newest_visible-IsInTime s (r ∷ rows) = elim (Bool-cases (leb r.version s)) [
  | inl b ↦ rw b (ground arith)
  | inr b ↦ rw b (newest_visible-IsInTime s rows)
]

in_time-IsInTime : (s : ℕ) (v : Option Value) → IsInTime s (ok (in_time s v))
in_time-IsInTime s none = tt
in_time-IsInTime s (some v) = elim (Bool-cases (leb v.version s)) [
  | inl b ↦ rw b (ground arith)
  | inr b ↦ rw b tt
]

or_older-IsInTime :
    (codec : IntentCodec) (resolve : Resolve) (shard_id : ℕ) (key : Bytes) (s : ℕ) (rows : List Row)
    (r : Result (Option Value))
    → IsInTime s r
    → IsInTime s (or_older codec resolve shard_id key s rows r)
or_older-IsInTime codec resolve shard_id key s rows (err e) h = tt
or_older-IsInTime codec resolve shard_id key s rows (ok none) h = newest_visible-IsInTime s rows
or_older-IsInTime codec resolve shard_id key s rows (ok (some v)) h = h

module _ (codec : IntentCodec) (resolve : Resolve) (shard_id : ℕ) (key : Bytes) (s : ℕ) where
  resolved-IsInTime :
      (r : Result (Option Value)) → IsInTime s (r >>= λ resolved. ok (in_time s resolved))
  resolved-IsInTime (err e) = tt
  resolved-IsInTime (ok v) = in_time-IsInTime s v

  by_intent-IsInTime :
      (intent : Result TxnIntent)
      → IsInTime s (
          intent >>= λ i.
          if leb i.start_version s
          then (resolve shard_id key s i.start_version >>= λ resolved. ok (in_time s resolved))
          else ok none)
  by_intent-IsInTime (err e) = tt
  by_intent-IsInTime (ok i) = elim (Bool-cases (leb i.start_version s)) [
    | inl b ↦ rw b (resolved-IsInTime (resolve shard_id key s i.start_version))
    | inr b ↦ rw b tt
  ]

  resolved_intent-IsInTime :
      (content : Option Bytes) → IsInTime s (resolved_intent codec resolve shard_id key s content)
  resolved_intent-IsInTime none = tt
  resolved_intent-IsInTime (some c) = by_intent-IsInTime (ok_or (codec.decode c) decode_error)

  visible_version-IsInTime :
      (rows : List Row) → IsInTime s (visible_version codec resolve shard_id key s rows)
  visible_version-IsInTime [] = tt
  visible_version-IsInTime (r ∷ rows) = elim (Bool-cases (r.version == txn_intent_version)) [
    | inl b ↦ rw b (
        or_older-IsInTime codec resolve shard_id key s rows
          (resolved_intent codec resolve shard_id key s r.content)
          (resolved_intent-IsInTime r.content))
    | inr b ↦ rw b (newest_visible-IsInTime s (r ∷ rows))
  ]

pub visible_version-committed :
    (codec : IntentCodec) (resolve : Resolve) (shard_id : ℕ) (key : Bytes) (start_version : ℕ)
    (rows : List Row)
    → NoIntent rows
    → visible_version codec resolve shard_id key start_version rows
      ≡ ok (newest_visible start_version rows)
visible_version-committed codec resolve shard_id key s [] h = refl
visible_version-committed codec resolve shard_id key s (r ∷ rows) h = ground arith

module _ (codec : IntentCodec) (resolve : Resolve) (start_version : ℕ) (engine : GroupEngine)
    (rows : List Row) (shard_id : ℕ) (desc : ShardDesc) (key : Bytes) (holds : Holds engine rows)
    (known : engine.shard_descs shard_id ≡ some desc) (nonempty : key ≢ [])
    (started : start_version < txn_intent_version) where
  abbrev found : List Row
  found = versions desc.table_id key rows

  pub read_key-eq :
      read_key codec resolve shard_id key start_version engine
      ≡ visible_version codec resolve shard_id key start_version found
  unfolding read_key
  read_key-eq = ground (
    arith,
    snapshot-target engine rows shard_id desc key holds known nonempty,
    read_from-rows codec resolve shard_id key start_version desc.table_id
        (rows_from (raw desc.table_id key) rows)
        (valid_from engine rows shard_id desc key holds known nonempty),
    leading-rows_from desc.table_id key nonempty rows holds.valid holds.sorted,
    read_rows-visible_version codec resolve shard_id key start_version found
        (All-versions desc.table_id key nonempty IsRow rows holds.valid)
        (versions-IsDescending desc.table_id key nonempty rows holds.valid holds.sorted) started,
  )

  -- `read_key` returns the committed value of the key's intent, if the intent's transaction started
  -- and committed no later than the reader; otherwise the newest committed version that is not
  -- newer than the reader, tombstones included; otherwise nothing. An error of the resolution, or
  -- of a broken intent, is returned. A value that is returned is not newer than the reader, whatever
  -- the intent resolves to. The column family holds the rows in order; the key is not empty; the
  -- reader has no intent's version.
  pub read_key-eq-visible_version :
      (read_key codec resolve shard_id key start_version engine
        ≡ visible_version codec resolve shard_id key start_version found)
      × IsInTime start_version (read_key codec resolve shard_id key start_version engine)
  read_key-eq-visible_version = (
    read_key-eq,
    subst (IsInTime start_version) (sym read_key-eq)
        (visible_version-IsInTime codec resolve shard_id key start_version found),
  )

  -- Where no version of the key is an intent, `read_key` succeeds, and returns the version and the
  -- content that the newest row of the key that is not newer than the reader stores, or nothing where
  -- every version is newer. The column family
  -- holds the rows in order; the key is not empty; the reader has no intent's version.
  pub read_key-IsNewestVisible :
      NoIntent found
      → (v : Option Value) × (read_key codec resolve shard_id key start_version engine ≡ ok v)
        × IsNewestVisible start_version found v
  read_key-IsNewestVisible n = (
    newest_visible start_version found,
    read_key-eq ∙ visible_version-committed codec resolve shard_id key start_version found n,
    newest_visible-IsNewestVisible start_version found
        (versions-IsDescending desc.table_id key nonempty rows holds.valid holds.sorted),
  )

module _ (codec : IntentCodec) (resolve : Resolve) (engine : GroupEngine) (rows : List Row)
    (exec_ctx : ExecCtx) (req : ShardGetRequest) (desc shard : ShardDesc)
    (move : MoveShardDesc) where
  abbrev all_versions : List Row
  all_versions = versions desc.table_id req.user_key rows

  -- While a shard moves out of the group, `get` of a key of that shard forwards the request to the group
  -- that the shard moves to, with all versions of the key, the newest first; `get` of a key of another
  -- shard reads the key at the request's version. The column family holds the rows in order; the key is
  -- not empty; the request's shard is known to the group.
  pub get-moving :
      Holds engine rows
      → engine.shard_descs req.shard_id ≡ some desc
      → req.user_key ≢ []
      → exec_ctx.move_shard_desc ≡ some move
      → move.shard_desc ≡ some shard
      → (get codec resolve exec_ctx engine req ≡ (
          if shard.id == req.shard_id
          then err (
              forward (record {
                shard_id = req.shard_id;
                dest_group_id = move.dest_group_id;
                payloads = record { user_key = req.user_key; values = map value all_versions } ∷ [];
              }))
          else read_key codec resolve req.shard_id req.user_key req.start_version engine))
        × IsDescending all_versions
  unfolding get forward_or moving_to payloads_of
  get-moving holds known nonempty moves of_shard =
      let all =
        get_all_versions-eq-versions engine rows req.shard_id desc req.user_key holds known
          nonempty in
      (
        elim (Bool-cases (shard.id == req.shard_id)) [
          | inl e ↦ rw (moves, of_shard, e, all.0) refl
          | inr e ↦ rw (moves, of_shard, e) refl
        ],
        all.1,
      )
