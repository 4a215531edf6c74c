-- ===== src/Eval/Write/Ingest.antt =====
-- `ingest_value_set` on the rows of a column family.
use sekv.Prelude.{ℕ, ◌≡◌, refl, ◌≢◌, ◌∙◌, ap, Option, none, some, List, [], ◌∷◌, ◌++◌, map}
use mathlib.Core.List.{append_assoc, append-nil}
use sekv.Prelude.Bytes.{Bytes}
use sekv.Api.{Value, ValueSet, ShardDesc}
use sekv.Result.{Result, ok}
use sekv.Engine.Group
use sekv.Engine.Group.{GroupEngine, WriteBatch}
use sekv.Engine.Rows.{Row}
use sekv.Engine.Rows.Seek.{versions}
use sekv.Engine.Group.Reads.{Holds, first, get-eq-first_version}
use sekv.Eval.Write.{write_values, ingest_value_set}
use sekv.Eval.Write.Newest.{op_of}

-- the rows that a value set of a moving shard stores
abbrev pub rows_of : ℕ → Bytes → List Value → List Row
rows_of t key values =
    map
      (λ v. record {
        table_id = t;
        key = key;
        version = Value.version v;
        content = Value.content v;
      })
      values

module _ (engine : GroupEngine) (shard_id : ℕ) (desc : ShardDesc) (key : Bytes)
    (known : engine.shard_descs shard_id ≡ some desc) where
  abbrev row_for : ℕ → Option Bytes → Row
  row_for version content = record {
    table_id = desc.table_id;
    key = key;
    version = version;
    content = content;
  }

  write_value-row :
      (version : ℕ) (content : Option Bytes) (wb : WriteBatch)
      → (elim content as (λ _. Result WriteBatch) [
        | some c ↦ Group.put engine wb shard_id key c version
        | none ↦ Group.tombstone engine wb shard_id key version
      ])
        ≡ ok (wb ++ op_of (row_for version content) ∷ [])
  unfolding Group.put Group.tombstone
  write_value-row version none wb = rw known refl
  write_value-row version (some c) wb = rw known refl

  write_values-rows :
      (values : List Value) (wb : WriteBatch)
      → write_values engine shard_id key values wb
        ≡ ok (wb ++ map op_of (rows_of desc.table_id key values))
  unfolding write_values
  write_values-rows [] wb = rw (append-nil wb) refl
  write_values-rows (v ∷ values) wb = rw (write_value-row v.version v.content wb) (
      write_values-rows values (wb ++ op_of (row_for v.version v.content) ∷ [])
      ∙ ap ok (
          append_assoc wb (op_of (row_for v.version v.content) ∷ [])
            (map op_of (rows_of desc.table_id key values))))

-- what is stored of a value set, given the versions of its key
abbrev pub ingested : ℕ → ValueSet → List Row → Option WriteBatch
ingested t value_set (r ∷ found) = none
ingested t value_set [] = elim value_set.values [
  | [] ↦ none
  | v ∷ values ↦ some (map op_of (rows_of t value_set.user_key (v ∷ values)))
]

-- `ingest_value_set` stores all values of the set, in their order, where the key has no version yet, and
-- nothing where it has one or the set is empty. The column family holds the rows in order; the key is not
-- empty.
ingest_value_set-eq :
    (engine : GroupEngine) (rows : List Row) (shard_id : ℕ) (desc : ShardDesc)
    (value_set : ValueSet)
    → Holds engine rows
    → engine.shard_descs shard_id ≡ some desc
    → value_set.user_key ≢ []
    → ingest_value_set engine shard_id value_set
      ≡ ok (ingested desc.table_id value_set (versions desc.table_id value_set.user_key rows))
unfolding ingest_value_set
ingest_value_set-eq engine rows shard_id desc value_set holds known nonempty =
    go value_set.values (versions desc.table_id value_set.user_key rows)
      (get-eq-first_version engine rows shard_id desc value_set.user_key holds known nonempty).0
  where
    go :
        (values : List Value) (found : List Row)
        → Group.get engine shard_id value_set.user_key ≡ ok (first found)
        → ingest_value_set engine shard_id
            (record { user_key = value_set.user_key; values = values })
          ≡ ok (
              ingested desc.table_id
                (record { user_key = value_set.user_key; values = values })
                found)
    go [] [] e = refl
    go [] (r ∷ found) e = refl
    go (v ∷ values) [] e =
        rw (e, write_values-rows engine shard_id desc value_set.user_key known (v ∷ values) []) refl
    go (v ∷ values) (r ∷ found) e = rw e refl
