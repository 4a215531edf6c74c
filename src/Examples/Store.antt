-- ===== src/Examples/Store.antt =====
-- A column family with two keys of one table: "a" has two committed versions, "b" has a committed version
-- and the intent of the transaction that started at 30.
use sekv.Prelude.{
  ℕ, ◌≤◌, ◌≡◌, refl, ◌≢◌, Bool, true, false, Option, none, some, List, [], ◌∷◌, map, arith, All,
  ◌==◌, if◌then◌else◌,
}
use sekv.Prelude.Bytes.{Bytes, cmp, to_be_bytes, to_le_bytes}
use sekv.Api.{TxnIntent, put_intent, IntentCodec, ShardDesc, ExecCtx}
use sekv.Engine.Keys.{u64_max, mvcc_key, encode_groups, pad, group_size}
use sekv.Engine.Rows.{Row, IsRow, item}
use sekv.Engine.Rows.Seek.{IsSorted, rows_from}
use sekv.Engine.Group.{GroupEngine}
use sekv.Engine.Group.Reads.{Holds}
use sekv.Eval.Get.{txn_intent_version}

abbrev encode_content : Option Bytes → Bytes
encode_content none = []
encode_content (some content) = 1 ∷ content

abbrev decode_content : Bytes → Option Bytes
decode_content [] = none
decode_content (tag ∷ content) = some content

abbrev flag : Bool → ℕ
flag false = 0
flag true = 1

abbrev encode : TxnIntent → Bytes
encode intent = intent.start_version ∷ flag intent.is_delete ∷ encode_content intent.value

abbrev decode : Bytes → Option TxnIntent
decode (start ∷ tag ∷ rest) =
    some (record { start_version = start; is_delete = tag == 1; value = decode_content rest })
decode _ = none

decode-fields :
    (s : ℕ) (d : Bool) (v : Option Bytes)
    → decode (s ∷ flag d ∷ encode_content v)
      ≡ some (record { start_version = s; is_delete = d; value = v })
decode-fields s false none = refl
decode-fields s true none = refl
decode-fields s false (some v) = refl
decode-fields s true (some v) = refl

pub decode-encode : (intent : TxnIntent) → decode (encode intent) ≡ some intent
decode-encode intent = decode-fields intent.start_version intent.is_delete intent.value

abbrev pub codec : IntentCodec
codec = record { encode = encode; decode = decode; decode-encode = decode-encode }

abbrev pub key_a : Bytes
key_a = b'a' ∷ []

abbrev pub key_b : Bytes
key_b = b'b' ∷ []

pub a_nonempty : key_a ≢ []
a_nonempty = λ e. cc

pub b_nonempty : key_b ≢ []
b_nonempty = λ e. cc

abbrev row : Bytes → ℕ → Option Bytes → Row
row key version content = record { table_id = 1; key = key; version = version; content = content }

abbrev pub intent : TxnIntent
intent = put_intent 30 (some (9 ∷ []))

abbrev pub rows : List Row
rows =
    row key_a 20 none
    ∷ row key_a 10 (some (7 ∷ []))
    ∷ row key_b txn_intent_version (some (encode intent))
    ∷ row key_b 5 (some (8 ∷ []))
    ∷ []

abbrev pub desc : ShardDesc
desc = record { id = 1; table_id = 1; range = none }

abbrev pub engine : GroupEngine
engine = record {
  shard_descs = λ id. if id == 1 then some desc else none;
  seek = λ key. map item (rows_from key rows);
}

abbrev pub ctx : ExecCtx
ctx = record { group_id = 1; move_shard_desc = none }

a_row :
    (version : ℕ) (content : Option Bytes) → version ≤ u64_max → IsRow (row key_a version content)
a_row version content h = record { key_nonempty = a_nonempty; version_fits = h }

b_row :
    (version : ℕ) (content : Option Bytes) → version ≤ u64_max → IsRow (row key_b version content)
b_row version content h = record { key_nonempty = b_nonempty; version_fits = h }

rows-IsRow : All IsRow rows
rows-IsRow = (
  a_row 20 none (omega arith),
  (
    a_row 10 (some (7 ∷ [])) (omega arith),
    (
      b_row txn_intent_version (some (encode intent)) (omega arith),
      (b_row 5 (some (8 ∷ [])) (omega arith), tt),
    ),
  ),
)

rows-IsSorted : IsSorted rows
unfolding cmp mvcc_key encode_groups pad group_size to_be_bytes to_le_bytes
rows-IsSorted = ((refl, (refl, (refl, tt))), ((refl, (refl, tt)), ((refl, tt), (tt, tt))))

pub holds : Holds engine rows
holds = record { valid = rows-IsRow; sorted = rows-IsSorted; seeks = λ key. refl }
