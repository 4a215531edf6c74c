-- ===== src/Eval/Write/Newest.antt =====
-- What the batch of `batch_write` adds to the rows of a column family.
use sekv.Prelude.{
  ℕ, ◌+◌, ◌≤◌, ◌<◌, ◌≡◌, refl, ◌≢◌, ◌⊎◌, inl, inr, ◌∙◌, sym, Option, none, some, List, [], ◌∷◌,
  ◌++◌, map, arith, All,
}
use mathlib.Core.List.{append_assoc, append-nil}
use sekv.Prelude.Bytes.{Bytes}
use sekv.Api.{
  Value, WriteCondition, PutType, PutRequest, DeleteRequest, put_none, add_i64, nop, ShardDesc,
  ShardWriteRequest, WriteResponse,
}
use sekv.Result.{Error, cas_failed, Result, ok, err, ◌>>=◌}
use sekv.Engine.Keys.{u64_max}
use sekv.Engine.Group
use sekv.Engine.Group.{GroupEngine, WriteBatch, BatchOp, put_op}
use sekv.Engine.Rows.{Row, row_key, value}
use sekv.Engine.Rows.Seek.{versions, IsDescending}
use sekv.Engine.Entry.RoundTrip.{stored}
use sekv.Engine.Group.Reads.{Holds, first, get-eq-first_version}
use sekv.Eval.Cas.{eval_conditions}
use sekv.Eval.Write.{write_version, check, put_only, write_deletes, write_puts}

-- One write of a request: its key, its conditions and what it stores, none for a delete.
pub record Write : Type 0 where
  pub key : Bytes
  pub conditions : List WriteCondition
  pub content : Option Bytes

abbrev pub of_delete : DeleteRequest → Write
of_delete del = record { key = del.key; conditions = del.conditions; content = none }

abbrev pub of_put : PutRequest → Write
of_put put = record { key = put.key; conditions = put.conditions; content = some put.value }

abbrev pub writes : ShardWriteRequest → List Write
writes req = map of_delete req.deletes ++ map of_put req.puts

-- The key can be written: it is not empty, and has no intent.
abbrev pub Writable : ℕ → List Row → Write → Type 0
Writable t rows w = (w.key ≢ []) × All (λ r. r.version < u64_max) (versions t w.key rows)

-- The row holds the write: the write's conditions hold of the newest version of its key, and the row is
-- newer than every version of the key.
pub record Stores (t : ℕ) (rows : List Row) (w : Write) (r : Row) : Type 0 where
  pub table : r.table_id ≡ t
  pub same_key : r.key ≡ w.key
  pub same_content : r.content ≡ w.content
  pub conditions_hold : eval_conditions (first (versions t w.key rows)) w.conditions ≡ ok none
  pub newest : All (λ s. s.version < r.version) (versions t w.key rows)

-- Each write is stored by the row at its place.
abbrev pub Stored : ℕ → List Row → List Write → List Row → Type 0
Stored t rows [] [] = Unit
Stored t rows (w ∷ ws) (r ∷ rs) = Stores t rows w r × Stored t rows ws rs
Stored t rows _ _ = ⊥

abbrev pub op_of : Row → BatchOp
op_of r = put_op (row_key r) (stored r.content)

pub Stored-append :
    (t : ℕ) (rows : List Row) (vs ws : List Write) (rs ss : List Row)
    → Stored t rows vs rs
    → Stored t rows ws ss
    → Stored t rows (vs ++ ws) (rs ++ ss)
Stored-append t rows [] ws [] ss h k = k
Stored-append t rows [] ws (r ∷ rs) ss h k = absurd h
Stored-append t rows (v ∷ vs) ws [] ss h k = absurd h
Stored-append t rows (v ∷ vs) ws (r ∷ rs) ss h k = (h.0, Stored-append t rows vs ws rs ss h.1 k)

All-trans :
    (m n : ℕ) (rows : List Row)
    → m ≤ n
    → All (λ s. s.version < m) rows
    → All (λ s. s.version < n) rows
All-trans m n [] h a = tt
All-trans m n (r ∷ rows) h a = (omega (arith, a.0), All-trans m n rows h a.1)

write_version-larger :
    (time : ℕ) (r : Row) → r.version < u64_max → r.version < write_version time (some (value r))
unfolding write_version
write_version-larger time r h = ground arith

-- The version of a write is newer than the newest version, and so than all.
write_version-newest :
    (time : ℕ) (rows : List Row)
    → IsDescending rows
    → All (λ r. r.version < u64_max) rows
    → All (λ s. s.version < write_version time (first rows)) rows
write_version-newest time [] d h = tt
write_version-newest time (r ∷ rows) d h =
    let larger : r.version < write_version time (some (value r)) =
      write_version-larger time r h.0 in
    (larger, All-trans r.version (write_version time (some (value r))) rows (omega arith) d.0)

check-cases :
    (idx : ℕ) (prev_value : Option Value) (conditions : List WriteCondition)
    → ((check idx prev_value conditions ≡ ok tt)
        × (eval_conditions prev_value conditions ≡ ok none))
      ⊎ ((e : Error) × (check idx prev_value conditions ≡ err e))
unfolding check
check-cases idx prev_value conditions = go (eval_conditions prev_value conditions) refl
  where
    go :
        (r : Result (Option ℕ))
        → eval_conditions prev_value conditions ≡ r
        → ((check idx prev_value conditions ≡ ok tt)
            × (eval_conditions prev_value conditions ≡ ok none))
          ⊎ ((e : Error) × (check idx prev_value conditions ≡ err e))
    go (err e) p = inr (e, rw p refl)
    go (ok none) p = inl (rw p refl, p)
    go (ok (some n)) p = inr (cas_failed idx n prev_value, rw p refl)

module _ (engine : GroupEngine) (rows : List Row) (now : ℕ → ℕ) (shard_id : ℕ) (desc : ShardDesc)
    (holds : Holds engine rows) (known : engine.shard_descs shard_id ≡ some desc) where
  abbrev t : ℕ
  t = desc.table_id

  abbrev row_of : ℕ → Write → Row
  row_of time w = record {
    table_id = t;
    key = w.key;
    version = write_version time (first (versions t w.key rows));
    content = w.content;
  }

  row_of-Stores :
      (time : ℕ) (w : Write)
      → Writable t rows w
      → eval_conditions (first (versions t w.key rows)) w.conditions ≡ ok none
      → Stores t rows w (row_of time w)
  row_of-Stores time w h c = record {
    table = refl;
    same_key = refl;
    same_content = refl;
    conditions_hold = c;
    newest =
        write_version-newest time (versions t w.key rows)
          (get-eq-first_version engine rows shard_id desc w.key holds known h.0).1 h.1;
  }

  abbrev pub Passes : Write → Type 0
  Passes w = eval_conditions (first (versions t w.key rows)) w.conditions ≡ ok none

  module _ (E : Type 0) where
    -- What the loops make of the writes; an error comes with an `E`.
    abbrev pub Outcome : List Write → WriteBatch → Result (WriteBatch × List WriteResponse) → Type 0
    Outcome ws wb (err e) = E
    Outcome ws wb (ok r) = (rs : List Row) × (r.0 ≡ wb ++ map op_of rs) × Stored t rows ws rs

    Outcome-step :
        (time : ℕ) (w : Write) (ws : List Write) (wb : WriteBatch) (response : WriteResponse)
        → Stores t rows w (row_of time w)
        → (rest : Result (WriteBatch × List WriteResponse))
        → Outcome ws (wb ++ op_of (row_of time w) ∷ []) rest
        → Outcome (w ∷ ws) wb (rest >>= λ r. ok (r.0, response ∷ r.1))
    Outcome-step time w ws wb response s (err e) h = h
    Outcome-step time w ws wb response s (ok r) (rs, e, q) = (
      row_of time w ∷ rs,
      e ∙ append_assoc wb (op_of (row_of time w) ∷ []) (map op_of rs),
      (s, q),
    )

    failed :
        (idx : ℕ) (w : Write) (e : Error)
        → Passes w ⊎ E
        → check idx (first (versions t w.key rows)) w.conditions ≡ err e
        → E
    unfolding check
    failed idx w e (inr x) p = x
    failed idx w e (inl c) p = absurd (ground (arith, c))

    pub write_deletes-Outcome :
        (idx : ℕ) (dels : List DeleteRequest) (wb : WriteBatch)
        → All (Writable t rows) (map of_delete dels)
        → All (λ w. Passes w ⊎ E) (map of_delete dels)
        → Outcome (map of_delete dels) wb (write_deletes engine now shard_id idx dels wb)
    unfolding write_deletes Group.tombstone
    write_deletes-Outcome idx [] wb h x = ([], sym (append-nil wb), tt)
    write_deletes-Outcome idx (del ∷ dels) wb h x =
        elim (check-cases idx (first (versions t del.key rows)) del.conditions) [
          | inr (e, p) ↦
              rw ((get-eq-first_version engine rows shard_id desc del.key holds known h.0.0).0, p)
                (failed idx (of_delete del) e x.0 p)
          | inl (p, c) ↦
              rw
                (
                  (get-eq-first_version engine rows shard_id desc del.key holds known h.0.0).0,
                  p,
                  known,
                )
                (Outcome-step (now idx) (of_delete del) (map of_delete dels) wb _
                  (row_of-Stores (now idx) (of_delete del) h.0 c) _
                  (write_deletes-Outcome (idx + 1) dels _ h.1 x.1))
        ]

    put_only-cases :
        (type : PutType)
        → (put_only type ≡ ok tt) ⊎ E
        → (put_only type ≡ ok tt) ⊎ ((e : Error) × (put_only type ≡ err e) × E)
    put_only-cases put_none h = inl refl
    put_only-cases add_i64 (inl h) = cc
    put_only-cases add_i64 (inr x) = inr (_, refl, x)
    put_only-cases nop (inl h) = cc
    put_only-cases nop (inr x) = inr (_, refl, x)

    pub write_puts-Outcome :
        (idx : ℕ) (puts : List PutRequest) (wb : WriteBatch)
        → All (Writable t rows) (map of_put puts)
        → All (λ w. Passes w ⊎ E) (map of_put puts)
        → All (λ p. (put_only p.put_type ≡ ok tt) ⊎ E) puts
        → Outcome (map of_put puts) wb (write_puts engine now shard_id idx puts wb)
    unfolding write_puts Group.put
    write_puts-Outcome idx [] wb h x y = ([], sym (append-nil wb), tt)
    write_puts-Outcome idx (put ∷ puts) wb h x y = elim (put_only-cases put.put_type y.0) [
      | inr (e, p, z) ↦ rw p z
      | inl o ↦ elim (check-cases idx (first (versions t put.key rows)) put.conditions) [
        | inr (e, p) ↦
            rw (o, (get-eq-first_version engine rows shard_id desc put.key holds known h.0.0).0, p)
              (failed idx (of_put put) e x.0 p)
        | inl (p, c) ↦
            rw
              (
                o,
                (get-eq-first_version engine rows shard_id desc put.key holds known h.0.0).0,
                p,
                known,
              )
              (Outcome-step (now idx) (of_put put) (map of_put puts) wb _
                (row_of-Stores (now idx) (of_put put) h.0 c) _
                (write_puts-Outcome (idx + 1) puts _ h.1 x.1 y.1))
      ]
    ]
