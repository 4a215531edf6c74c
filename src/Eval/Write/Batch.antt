-- ===== src/Eval/Write/Batch.antt =====
-- `batch_write` on the rows of a column family.
use sekv.Prelude.{
  ℕ, ◌≡◌, refl, ◌≢◌, ◌⊎◌, inl, inr, ◌∙◌, sym, Bool-cases, true, false, Option, none, some, List, [],
  ◌∷◌, ◌++◌, map, arith, All, length,
}
use sekv.Api.{PutRequest, ShardDesc, ExecCtx, ShardWriteRequest, ShardWriteResponse, WriteResponse}
use sekv.Result.{Result, ok, err, ◌>>=◌}
use sekv.Engine.Group.{GroupEngine, WriteBatch}
use sekv.Engine.Rows.{Row}
use sekv.Engine.Group.Reads.{Holds}
use sekv.Eval.Forward.{moving_to, forward_or}
use sekv.Eval.Write.{put_only, nothing, write_deletes, write_puts, batch_write}
use sekv.Eval.Write.Newest.{
  Write, of_delete, of_put, writes, Writable, Stored, op_of, Stored-append, Passes, Outcome,
  write_deletes-Outcome, write_puts-Outcome,
}

All-split {ℓ κ} :
    {A : Type ℓ} (P : A → Type κ) (xs ys : List A) → All P (xs ++ ys) → All P xs × All P ys
All-split P [] ys h = (tt, h)
All-split P (x ∷ xs) ys h = let (l, r) = All-split P xs ys h.1 in ((h.0, l), r)

All-map {ℓ κ ι} :
    {A : Type ℓ} (P : A → Type κ) (Q : A → Type ι)
    → ((a : A) → P a → Q a)
    → (xs : List A) → All P xs
    → All Q xs
All-map P Q f [] h = tt
All-map P Q f (x ∷ xs) h = (f x h.0, All-map P Q f xs h.1)

All-any {ℓ κ} : {A : Type ℓ} (P : A → Type κ) → ((a : A) → P a) → (xs : List A) → All P xs
All-any P f [] = tt
All-any P f (x ∷ xs) = (f x, All-any P f xs)

map-append {ℓ κ} :
    {A : Type ℓ} {B : Type κ} (f : A → B) (xs ys : List A) → map f (xs ++ ys) ≡ map f xs ++ map f ys
map-append f [] ys = refl
map-append f (x ∷ xs) ys = rw (map-append f xs ys)

-- An empty request writes nothing.
batch_write-nothing :
    (engine : GroupEngine) (now : ℕ → ℕ) (exec_ctx : ExecCtx) (req : ShardWriteRequest)
    (wb : WriteBatch) (resp : ShardWriteResponse)
    → nothing req ≡ true
    → batch_write exec_ctx engine now req ≢ ok (some wb, resp)
unfolding batch_write
batch_write-nothing engine now exec_ctx req wb resp n h = ground arith

module _ (engine : GroupEngine) (rows : List Row) (now : ℕ → ℕ) (exec_ctx : ExecCtx)
    (req : ShardWriteRequest) (desc : ShardDesc) (holds : Holds engine rows)
    (known : engine.shard_descs req.shard_id ≡ some desc)
    (stays : moving_to exec_ctx req.shard_id ≡ ok none)
    (writable : All (Writable desc.table_id rows) (writes req)) where
  abbrev Passing : Write → Type 0
  Passing = Passes engine rows now req.shard_id desc holds known

  abbrev Batch : Type 0 → Result (Option WriteBatch × ShardWriteResponse) → Type 0
  Batch E (err e) = E
  Batch E (ok (none, resp)) = ⊥
  Batch E (ok (some wb, resp)) =
      (rs : List Row) × (wb ≡ map op_of rs) × Stored desc.table_id rows (writes req) rs

  abbrev second :
      Result (WriteBatch × List WriteResponse)
      → List WriteResponse
      → Result (Option WriteBatch × ShardWriteResponse)
  second r deletes = r >>= λ p. ok (some p.0, record { deletes = deletes; puts = p.1 })

  Batch-second :
      (E : Type 0) (wb : WriteBatch) (deletes : List WriteResponse) (rs : List Row)
      → wb ≡ map op_of rs
      → Stored desc.table_id rows (map of_delete req.deletes) rs
      → (r : Result (WriteBatch × List WriteResponse))
      → Outcome engine rows now req.shard_id desc holds known E (map of_put req.puts) wb r
      → Batch E (second r deletes)
  Batch-second E wb deletes rs e s (err x) h = h
  Batch-second E wb deletes rs e s (ok r) (ss, d, q) = (
    rs ++ ss,
    d ∙ rw e (sym (map-append op_of rs ss)),
    Stored-append desc.table_id rows (map of_delete req.deletes) (map of_put req.puts) rs ss s q,
  )

  Batch-Outcome :
      (E : Type 0)
      → nothing req ≡ false
      → All (λ w. Passing w ⊎ E) (writes req)
      → All (λ p. (put_only (PutRequest.put_type p) ≡ ok tt) ⊎ E) req.puts
      → Batch E (batch_write exec_ctx engine now req)
  unfolding batch_write forward_or
  Batch-Outcome E n x y =
      rw (n, stays)
        (go (write_deletes engine now req.shard_id 0 req.deletes []) (
          write_deletes-Outcome engine rows now req.shard_id desc holds known E 0 req.deletes []
            able.0 pass.0))
    where
      able :
          All (Writable desc.table_id rows) (map of_delete req.deletes)
          × All (Writable desc.table_id rows) (map of_put req.puts)
      able =
          All-split (Writable desc.table_id rows) (map of_delete req.deletes) (map of_put req.puts)
            writable

      pass :
          All (λ w. Passing w ⊎ E) (map of_delete req.deletes)
          × All (λ w. Passing w ⊎ E) (map of_put req.puts)
      pass = All-split (λ w. Passing w ⊎ E) (map of_delete req.deletes) (map of_put req.puts) x

      go :
          (r : Result (WriteBatch × List WriteResponse))
          → Outcome engine rows now req.shard_id desc holds known E (map of_delete req.deletes) [] r
          → Batch E (
              r >>= λ d.
              second (write_puts engine now req.shard_id (length req.deletes) req.puts d.0) d.1)
      go (err e) h = h
      go (ok d) (rs, e, s) =
          Batch-second E d.0 d.1 rs e s
            (write_puts engine now req.shard_id (length req.deletes) req.puts d.0)
            (write_puts-Outcome engine rows now req.shard_id desc holds known E (length req.deletes)
              req.puts d.0 able.1 pass.1 y)

  Batch-of :
      (wb : WriteBatch) (resp : ShardWriteResponse)
      (r : Result (Option WriteBatch × ShardWriteResponse))
      → r ≡ ok (some wb, resp)
      → Batch Unit r
      → (rs : List Row) × (wb ≡ map op_of rs) × Stored desc.table_id rows (writes req) rs
  Batch-of wb resp (err e) p h = cc
  Batch-of wb resp (ok (none, resp')) p h = absurd h
  Batch-of wb resp (ok (some wb', resp')) p (rs, e, s) = (rs, cc, s)

  -- A batch that `batch_write` returns, where the shard stays, holds one row for each delete and then for
  -- each put of the request, in their order: the conditions of the write hold of the newest version of its
  -- key, and the row is newer than every version of the key. The column family holds the rows in order, and
  -- no key of the request is empty or has an intent.
  pub batch_write-Stored :
      (wb : WriteBatch) (resp : ShardWriteResponse)
      → batch_write exec_ctx engine now req ≡ ok (some wb, resp)
      → (rs : List Row) × (wb ≡ map op_of rs) × Stored desc.table_id rows (writes req) rs
  batch_write-Stored wb resp h = elim (Bool-cases (nothing req)) [
    | inl n ↦ absurd (batch_write-nothing engine now exec_ctx req wb resp n h)
    | inr n ↦ Batch-of wb resp (batch_write exec_ctx engine now req) h (
        Batch-Outcome Unit n (All-any _ (λ w. inr tt) (writes req))
          (All-any _ (λ p. inr tt) req.puts))
  ]

  -- `batch_write` returns a batch, where the shard stays, the request is not empty, every condition
  -- holds of the newest version of its key, and every put is a plain one; the batch holds one row
  -- for each delete and then for each put, newer than every version of its key. The column family
  -- holds the rows in order, and no key of the request is empty or has an intent.
  pub batch_write-ok :
      nothing req ≡ false
      → All Passing (writes req)
      → All (λ p. put_only (PutRequest.put_type p) ≡ ok tt) req.puts
      → (rs : List Row) × (resp : ShardWriteResponse) × (batch_write exec_ctx engine now req
          ≡ ok (some (map op_of rs), resp))
        × Stored desc.table_id rows (writes req) rs
  batch_write-ok n x y = go (batch_write exec_ctx engine now req) refl (
      Batch-Outcome ⊥ n (All-map _ _ (λ w p. inl p) (writes req) x)
        (All-map _ _ (λ w p. inl p) req.puts y))
    where
      go :
          (r : Result (Option WriteBatch × ShardWriteResponse))
          → batch_write exec_ctx engine now req ≡ r
          → Batch ⊥ r
          → (rs : List Row) × (resp : ShardWriteResponse) × (batch_write exec_ctx engine now req
              ≡ ok (some (map op_of rs), resp))
            × Stored desc.table_id rows (writes req) rs
      go (err e) p h = absurd h
      go (ok (none, resp)) p h = absurd h
      go (ok (some wb, resp)) p (rs, e, s) = (rs, resp, rw (p, e) refl, s)
