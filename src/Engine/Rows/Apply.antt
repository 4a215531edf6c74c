-- ===== src/Engine/Rows/Apply.antt =====
-- The rows of a column family after rocksdb has written a batch: what `put` and `delete` of a raw
-- key do to the pairs, which stand in the order of their keys.
pub mod Versions
pub mod Records
use sekv.Prelude.{
  ℕ, ◌≤◌, ◌<◌, ◌≡◌, refl, ◌≢◌, ap, ◌∙◌, Bool, Bool-cases, Ordering-cases, inl, inr, true, false,
  Option, none, some, List, [], ◌∷◌, map, arith, All, compare, if◌then◌else◌,
}
use Prim.Native.Nat.Ordering.{lt, eq, gt}
use sekv.Prelude.Bytes.{
  Bytes, cmp, then_order, eq_bytes, eq_bytes_iff, eq_bytes_refl, to_le_bytes, cmp_refl, cmp_flip,
  cmp_trans, eq_of_cmp,
}
use sekv.Engine.Keys.{u64_max}
use sekv.Engine.Keys.Order.{cmp-mvcc_key}
use sekv.Engine.Rows.{Row, IsRow, row_key}
use sekv.Engine.Rows.Seek.{Precedes, IsSorted, is_row_of, versions}

-- One record of a batch, by the row whose key it writes.
pub data RowOp : Type 0 where
  put_row delete_row : Row → RowOp

unfoldable pub insert_row : Row → List Row → List Row
insert_row r [] = r ∷ []
insert_row r (s ∷ rows) = elim (cmp (row_key r) (row_key s)) [
  | lt ↦ r ∷ s ∷ rows
  | eq ↦ r ∷ rows
  | gt ↦ s ∷ insert_row r rows
]

unfoldable pub remove_row : Row → List Row → List Row
remove_row r [] = []
remove_row r (s ∷ rows) =
    let rest = remove_row r rows in if eq_bytes (row_key s) (row_key r) then rest else s ∷ rest

abbrev pub apply_op : RowOp → List Row → List Row
apply_op (put_row r) rows = insert_row r rows
apply_op (delete_row r) rows = remove_row r rows

-- The records of a batch take effect one after the other.
abbrev pub apply : List RowOp → List Row → List Row
apply [] rows = rows
apply (op ∷ ops) rows = apply ops (apply_op op rows)

module _ (r s : Row) (rows : List Row) where
  pub insert-lt : cmp (row_key r) (row_key s) ≡ lt → insert_row r (s ∷ rows) ≡ r ∷ s ∷ rows
  unfolding insert_row
  insert-lt p = rw (insert_row, p) refl

  pub insert-eq : cmp (row_key r) (row_key s) ≡ eq → insert_row r (s ∷ rows) ≡ r ∷ rows
  unfolding insert_row
  insert-eq p = rw (insert_row, p) refl

  pub insert-gt : cmp (row_key r) (row_key s) ≡ gt → insert_row r (s ∷ rows) ≡ s ∷ insert_row r rows
  unfolding insert_row
  insert-gt p = rw (insert_row, p) refl

insert_row-All {κ} :
    (P : Row → Type κ) (r : Row) (rows : List Row) → P r → All P rows → All P (insert_row r rows)
unfolding insert_row
insert_row-All P r [] h a = (h, tt)
insert_row-All P r (s ∷ rows) h a = elim (Ordering-cases (cmp (row_key r) (row_key s))) [
  | inl p ↦ rw (insert-lt r s rows p) (h, a)
  | inr (inl p) ↦ rw (insert-eq r s rows p) (h, a.1)
  | inr (inr p) ↦ rw (insert-gt r s rows p) (a.0, insert_row-All P r rows h a.1)
]

Precedes-All :
    (r s : Row) (rows : List Row) → Precedes r s → All (Precedes s) rows → All (Precedes r) rows
Precedes-All r s [] h a = tt
Precedes-All r s (t ∷ rows) h a =
    (cmp_trans (row_key r) (row_key s) (row_key t) h a.0, Precedes-All r s rows h a.1)

Precedes-same :
    (r s : Row) (rows : List Row)
    → row_key r ≡ row_key s
    → All (Precedes s) rows
    → All (Precedes r) rows
Precedes-same r s [] e a = tt
Precedes-same r s (t ∷ rows) e a =
    (ap (λ k. cmp k (row_key t)) e ∙ a.0, Precedes-same r s rows e a.1)

insert_row-IsSorted : (r : Row) (rows : List Row) → IsSorted rows → IsSorted (insert_row r rows)
unfolding insert_row
insert_row-IsSorted r [] h = (tt, tt)
insert_row-IsSorted r (s ∷ rows) h = elim (Ordering-cases (cmp (row_key r) (row_key s))) [
  | inl p ↦ rw (insert-lt r s rows p) ((p, Precedes-All r s rows p h.0), h)
  | inr (inl p) ↦
      let same : row_key r ≡ row_key s = eq_of_cmp (row_key r) (row_key s) p in
      rw (insert-eq r s rows p) (Precedes-same r s rows same h.0, h.1)
  | inr (inr p) ↦ rw (insert-gt r s rows p) (
    insert_row-All (Precedes s) r rows ((cmp_flip (row_key s) (row_key r)).1 p) h.0,
    insert_row-IsSorted r rows h.1,
  )
]

remove_row-All {κ} :
    (P : Row → Type κ) (r : Row) (rows : List Row) → All P rows → All P (remove_row r rows)
unfolding remove_row
remove_row-All P r [] a = tt
remove_row-All P r (s ∷ rows) a = elim (Bool-cases (eq_bytes (row_key s) (row_key r))) [
  | inl e ↦ rw e (remove_row-All P r rows a.1)
  | inr e ↦ rw e (a.0, remove_row-All P r rows a.1)
]

remove_row-IsSorted : (r : Row) (rows : List Row) → IsSorted rows → IsSorted (remove_row r rows)
unfolding remove_row
remove_row-IsSorted r [] h = tt
remove_row-IsSorted r (s ∷ rows) h = elim (Bool-cases (eq_bytes (row_key s) (row_key r))) [
  | inl e ↦ rw e (remove_row-IsSorted r rows h.1)
  | inr e ↦ rw e (remove_row-All (Precedes s) r rows h.0, remove_row-IsSorted r rows h.1)
]

abbrev pub IsRowOp : RowOp → Type 0
IsRowOp (put_row r) = IsRow r
IsRowOp (delete_row r) = Unit

-- A batch keeps the rows in order.
pub apply-IsSorted :
    (ops : List RowOp) (rows : List Row) → IsSorted rows → IsSorted (apply ops rows)
apply-IsSorted [] rows h = h
apply-IsSorted (put_row r ∷ ops) rows h =
    apply-IsSorted ops (insert_row r rows) (insert_row-IsSorted r rows h)
apply-IsSorted (delete_row r ∷ ops) rows h =
    apply-IsSorted ops (remove_row r rows) (remove_row-IsSorted r rows h)

pub apply-IsRow :
    (ops : List RowOp) (rows : List Row)
    → All IsRowOp ops
    → All IsRow rows
    → All IsRow (apply ops rows)
apply-IsRow [] rows a h = h
apply-IsRow (put_row r ∷ ops) rows a h =
    apply-IsRow ops (insert_row r rows) a.1 (insert_row-All IsRow r rows a.0 h)
apply-IsRow (delete_row r ∷ ops) rows a h =
    apply-IsRow ops (remove_row r rows) a.1 (remove_row-All IsRow r rows h)
