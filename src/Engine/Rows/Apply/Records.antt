-- ===== src/Engine/Rows/Apply/Records.antt =====
-- What rocksdb documents of a write batch: its records take effect on the pairs of a column family one
-- after the other, a put replaces the value of its key, and iterators yield the pairs in the order of their keys.
use sekv.Prelude.{
  ℕ, ◌≡◌, refl, ap, ◌∙◌, Bool-cases, Ordering-cases, inl, inr, List, [], ◌∷◌, map, if◌then◌else◌,
}
use Prim.Native.Nat.Ordering.{lt, eq, gt}
use sekv.Prelude.Bytes.{Bytes, cmp, eq_bytes, lt_bytes}
use sekv.Result.{ok}
use sekv.Engine.Snapshot.{Item}
use sekv.Engine.Group.{BatchOp, put_op, delete_op, WriteBatch, GroupEngine}
use sekv.Engine.Rows.{Row, row_key, item}
use sekv.Engine.Rows.Seek.{rows_from}
use sekv.Engine.Rows.Apply.{RowOp, put_row, delete_row, insert_row, remove_row, apply}
use sekv.Engine.Entry.RoundTrip.{stored}

pub record Pair : Type 0 where
  pub key : Bytes
  pub value : Bytes

unfoldable pub put_pair : Pair → List Pair → List Pair
put_pair p [] = p ∷ []
put_pair p (q ∷ pairs) = elim (cmp p.key q.key) [
  | lt ↦ p ∷ q ∷ pairs
  | eq ↦ p ∷ pairs
  | gt ↦ q ∷ put_pair p pairs
]

unfoldable pub delete_pair : Bytes → List Pair → List Pair
delete_pair key [] = []
delete_pair key (q ∷ pairs) =
    let rest = delete_pair key pairs in if eq_bytes q.key key then rest else q ∷ rest

abbrev pub write_op : BatchOp → List Pair → List Pair
write_op (put_op key value) pairs = put_pair (record { key = key; value = value }) pairs
write_op (delete_op key) pairs = delete_pair key pairs

abbrev pub write_batch : WriteBatch → List Pair → List Pair
write_batch [] pairs = pairs
write_batch (op ∷ wb) pairs = write_batch wb (write_op op pairs)

abbrev pub item_of : Pair → Item
item_of p = ok (p.key, p.value)

-- the pairs from a key on, as an iterator yields them
unfoldable pub items_from : Bytes → List Pair → List Item
items_from key [] = []
items_from key (p ∷ pairs) =
    if lt_bytes p.key key then items_from key pairs else map item_of (p ∷ pairs)

abbrev pub pair : Row → Pair
pair r = record { key = row_key r; value = stored r.content }

abbrev pub record_of : RowOp → BatchOp
record_of (put_row r) = put_op (row_key r) (stored r.content)
record_of (delete_row r) = delete_op (row_key r)

map-insert_row :
    (r : Row) (rows : List Row) → map pair (insert_row r rows) ≡ put_pair (pair r) (map pair rows)
unfolding insert_row put_pair
map-insert_row r [] = refl
map-insert_row r (s ∷ rows) = elim (Ordering-cases (cmp (row_key r) (row_key s))) [
  | inl p ↦ rw (insert_row, put_pair, p) refl
  | inr (inl p) ↦ rw (insert_row, put_pair, p) refl
  | inr (inr p) ↦ rw (insert_row, put_pair, p) (ap (λ t. pair s ∷ t) (map-insert_row r rows))
]

map-remove_row :
    (r : Row) (rows : List Row)
    → map pair (remove_row r rows) ≡ delete_pair (row_key r) (map pair rows)
unfolding remove_row delete_pair
map-remove_row r [] = refl
map-remove_row r (s ∷ rows) = elim (Bool-cases (eq_bytes (row_key s) (row_key r))) [
  | inl e ↦ rw e (map-remove_row r rows)
  | inr e ↦ rw e (ap (λ t. pair s ∷ t) (map-remove_row r rows))
]

pub map-apply :
    (ops : List RowOp) (rows : List Row)
    → map pair (apply ops rows) ≡ write_batch (map record_of ops) (map pair rows)
map-apply [] rows = refl
map-apply (put_row r ∷ ops) rows =
    map-apply ops (insert_row r rows) ∙ ap (write_batch (map record_of ops)) (map-insert_row r rows)
map-apply (delete_row r ∷ ops) rows =
    map-apply ops (remove_row r rows) ∙ ap (write_batch (map record_of ops)) (map-remove_row r rows)

map-pair : (rows : List Row) → map item_of (map pair rows) ≡ map item rows
map-pair [] = refl
map-pair (r ∷ rows) = ap (λ t. item r ∷ t) (map-pair rows)

pub items_from-rows :
    (key : Bytes) (rows : List Row) → items_from key (map pair rows) ≡ map item (rows_from key rows)
unfolding items_from rows_from
items_from-rows key [] = refl
items_from-rows key (r ∷ rows) = elim (Bool-cases (lt_bytes (row_key r) key)) [
  | inl e ↦ rw e (items_from-rows key rows)
  | inr e ↦ rw e (ap (λ t. item r ∷ t) (map-pair rows))
]

-- rocksdb has written a batch over a column family that held some pairs. The shards are those of before.
pub record Written (wb : WriteBatch) (pairs : List Pair) (engine engine' : GroupEngine)
    : Type 0 where
  pub same_shards : (shard_id : ℕ) → engine'.shard_descs shard_id ≡ engine.shard_descs shard_id
  pub seeks : (key : Bytes) → engine'.seek key ≡ items_from key (write_batch wb pairs)
