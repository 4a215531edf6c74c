-- ===== src/Client/Batch/Fresh.antt =====
-- The contexts of the writes of a new batch: `WriteBatchContext::new` of client/src/txn.rs.
use sekv.Prelude.{
  ℕ, suc, ◌+◌, ◌≡◌, refl, ap, ◌∙◌, sym, false, Option, List, [], ◌∷◌, ◌++◌, map, arith, length,
}
use mathlib.Core.Path.{subst}
use mathlib.Core.List.{append-nil}
use sekv.Api.{PutRequest, DeleteRequest, WriteRequest, put_request, delete_request}
use sekv.Client.Batch.{WriteContext, WriteBatchContext, enumerate, with_put, with_delete, new}
use sekv.Client.Batch.Rounds.{undone, IsCounted}
use sekv.Client.Batch.Laid.{requests_of, DoneLaid}

-- The requests of a batch, the deletes first.
abbrev pub requests_in : List (ℕ × DeleteRequest) → List (ℕ × PutRequest) → List WriteRequest
requests_in deletes puts =
    map (λ (d : ℕ × DeleteRequest). delete_request d.1) deletes
    ++ map (λ (p : ℕ × PutRequest). put_request p.1) puts

-- What the fresh contexts of writes hold, ahead of others.
module _ {A : Type 0} (f : ℕ → A → WriteContext) (r : A → WriteRequest)
    (fresh : (index : ℕ) (a : A)
      → (WriteContext.done (f index a) ≡ false) × (WriteContext.request (f index a) ≡ r a))
    (rest : List WriteContext) where
  requests_of-enumerate :
      (index : ℕ) (xs : List A)
      → requests_of (enumerate f index xs ++ rest) ≡ map r xs ++ requests_of rest
  unfolding enumerate
  requests_of-enumerate index [] = refl
  requests_of-enumerate index (x ∷ xs) =
      λ i. (fresh index x).1 i ∷ requests_of-enumerate (suc index) xs i

  undone-enumerate :
      (index : ℕ) (xs : List A) → undone (enumerate f index xs ++ rest) ≡ length xs + undone rest
  unfolding enumerate
  undone-enumerate index [] = omega arith
  undone-enumerate index (x ∷ xs) =
      rw ((fresh index x).0) (omega (arith, undone-enumerate (suc index) xs))

  DoneLaid-enumerate :
      (Laid : ℕ → WriteRequest → Type 0) (v index : ℕ) (xs : List A)
      → DoneLaid Laid v rest
      → DoneLaid Laid v (enumerate f index xs ++ rest)
  unfolding enumerate
  DoneLaid-enumerate Laid v index [] d = d
  DoneLaid-enumerate Laid v index (x ∷ xs) d =
      (λ done. absurd (cc (done, (fresh index x).0)), DoneLaid-enumerate Laid v (suc index) xs d)

-- The contexts of a new batch, with none done.
module _ (v : ℕ) (deletes : List (ℕ × DeleteRequest)) (puts : List (ℕ × PutRequest))
    (deadline : Option ℕ) where
  fresh_delete :
      (index : ℕ) (d : ℕ × DeleteRequest)
      → (WriteContext.done (with_delete index d) ≡ false)
        × (WriteContext.request (with_delete index d) ≡ delete_request d.1)
  unfolding with_delete
  fresh_delete index d = (refl, refl)

  fresh_put :
      (index : ℕ) (p : ℕ × PutRequest)
      → (WriteContext.done (with_put index p) ≡ false)
        × (WriteContext.request (with_put index p) ≡ put_request p.1)
  unfolding with_put
  fresh_put index p = (refl, refl)

  abbrev put_writes : List WriteContext
  put_writes = enumerate with_put 0 puts

  pub requests_of-new :
      requests_of (WriteBatchContext.writes (new v deletes puts deadline))
      ≡ requests_in deletes puts
  unfolding new
  requests_of-new =
      requests_of-enumerate with_delete (λ d. delete_request d.1) fresh_delete put_writes 0 deletes
      ∙ ap (λ ws. map (λ (d : ℕ × DeleteRequest). delete_request d.1) deletes ++ requests_of ws)
          (sym (append-nil put_writes))
      ∙ ap (λ ws. map (λ (d : ℕ × DeleteRequest). delete_request d.1) deletes ++ ws)
          (requests_of-enumerate with_put (λ p. put_request p.1) fresh_put [] 0 puts
            ∙ append-nil (map (λ (p : ℕ × PutRequest). put_request p.1) puts))

  pub new-IsCounted : IsCounted (new v deletes puts deadline)
  unfolding new
  new-IsCounted =
      let p : undone put_writes ≡ length puts + 0 =
        ap undone (sym (append-nil put_writes))
        ∙ undone-enumerate with_put (λ p. put_request p.1) fresh_put [] 0 puts in
      omega (
        arith,
        p,
        undone-enumerate with_delete (λ d. delete_request d.1) fresh_delete put_writes 0 deletes,
      )

  pub new-DoneLaid :
      (Laid : ℕ → WriteRequest → Type 0)
      → DoneLaid Laid v (WriteBatchContext.writes (new v deletes puts deadline))
  unfolding new
  new-DoneLaid Laid =
      DoneLaid-enumerate with_delete (λ d. delete_request d.1) fresh_delete put_writes Laid v 0
        deletes
        (subst (λ ws. DoneLaid Laid v ws) (append-nil put_writes)
          (DoneLaid-enumerate with_put (λ p. put_request p.1) fresh_put [] Laid v 0 puts tt))
