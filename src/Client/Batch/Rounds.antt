-- ===== src/Client/Batch/Rounds.antt =====
-- A round of the first phase of a commit (`prepare_intents_inner` of client/src/txn.rs), which counts what is left
-- and names writes by their index, against one walk over the writes.
use sekv.Prelude.{
  ℕ, suc, ◌+◌, ◌≡◌, refl, ap, ◌∙◌, sym, Bool, true, false, some, List, [], ◌∷◌, ◌++◌, if◌then◌else◌,
  length, arith, Bool-cases, inl, inr,
}
use mathlib.Core.List.{append_assoc}
use sekv.Api.{WriteResponse}
use sekv.Client.Error.{ClientResult, ok, err, ◌>>=◌}
use sekv.Client.Retry.{is_retryable}
use sekv.Client.Batch.{WriteContext, WriteBatchContext, update, checked_sub, join, accept_write}

-- How many writes are not done.
abbrev pub undone : List WriteContext → ℕ
undone [] = 0
undone (write ∷ writes) = if write.done then undone writes else suc (undone writes)

abbrev pub IsCounted : WriteBatchContext → Type 0
IsCounted self = self.num_doing_writes ≡ undone self.writes

abbrev pub answered : WriteResponse → WriteContext → WriteContext
answered response write = record write { response = some response; done = true }

-- The writes after a round: each write that is not done takes the next answer. It is done by a response,
-- left by an error to retry, and any other error ends the round.
unfoldable pub settle :
    List (ClientResult WriteResponse) → List WriteContext → ClientResult (List WriteContext)
settle answers [] = ok []
settle [] (write ∷ writes) = ok (write ∷ writes)
settle (ok response ∷ answers) (write ∷ writes) =
    if write.done
    then (settle (ok response ∷ answers) writes >>= λ rest. ok (write ∷ rest))
    else (settle answers writes >>= λ rest. ok (answered response write ∷ rest))
settle (err e ∷ answers) (write ∷ writes) =
    if write.done
    then (settle (err e ∷ answers) writes >>= λ rest. ok (write ∷ rest))
    else (is_retryable e >>= λ retryable.
        if retryable then (settle answers writes >>= λ rest. ok (write ∷ rest)) else err e)

pub settle-nil : (writes : List WriteContext) → settle [] writes ≡ ok writes
unfolding settle
settle-nil [] = refl
settle-nil (write ∷ writes) = refl

pub settle_skipped :
    (answers : List (ClientResult WriteResponse)) (write : WriteContext)
    (writes : List WriteContext)
    → write.done ≡ true
    → settle answers (write ∷ writes) ≡ (settle answers writes >>= λ rest. ok (write ∷ rest))
unfolding settle
settle_skipped [] write writes d = rw (settle-nil writes) refl
settle_skipped (ok response ∷ answers) write writes d = simp d
settle_skipped (err e ∷ answers) write writes d = simp d

-- The indexes of the writes that are not done.
abbrev pub indexes_of : ℕ → List WriteContext → List ℕ
indexes_of index [] = []
indexes_of index (write ∷ writes) =
    if write.done then indexes_of (suc index) writes else index ∷ indexes_of (suc index) writes

update-append :
    (f : WriteContext → WriteContext) (before : List WriteContext) (write : WriteContext)
    (writes : List WriteContext)
    → update (length before) f (before ++ (write ∷ writes)) ≡ ok (before ++ (f write ∷ writes))
unfolding update
update-append f [] write writes = refl
update-append f (w ∷ before) write writes = rw (update-append f before write writes) refl

snoc-append :
    (before : List WriteContext) (write : WriteContext) (writes : List WriteContext)
    → before ++ (write ∷ writes) ≡ (before ++ (write ∷ [])) ++ writes
snoc-append before write writes = sym (append_assoc before (write ∷ []) writes)

length-snoc :
    (before : List WriteContext) (write : WriteContext)
    → length (before ++ (write ∷ [])) ≡ suc (length before)
length-snoc [] write = refl
length-snoc (w ∷ before) write = rw (length-snoc before write) refl

module _ (self : WriteBatchContext) where
  abbrev pub context : ℕ → List WriteContext → WriteBatchContext
  context num writes = record self { num_doing_writes = num; writes = writes }

  abbrev pub after :
      ℕ → List WriteContext → ClientResult (List WriteContext) → ClientResult WriteBatchContext
  after n before settled = settled >>= λ writes. ok (context (n + undone writes) (before ++ writes))

  accept_write-context :
      (n : ℕ) (before : List WriteContext) (write : WriteContext) (writes : List WriteContext)
      (response : WriteResponse)
      → accept_write
          (length before)
          response
          (context (n + suc (undone writes)) (before ++ (write ∷ writes)))
        ≡ ok (context (n + undone writes) ((before ++ (answered response write ∷ [])) ++ writes))
  unfolding accept_write checked_sub
  accept_write-context n before write writes response =
      let e : n + suc (undone writes) ≡ suc (n + undone writes) = omega arith in
      rw (e, checked_sub, update-append (answered response) before write writes)
        (ap (λ l. ok (context (n + undone writes) l))
          (snoc-append before (answered response write) writes))

  -- The head is kept in front of what the rest is settled to.
  after-cons :
      (n : ℕ) (before : List WriteContext) (write : WriteContext)
      (settled : ClientResult (List WriteContext)) (m : ℕ)
      → ((writes : List WriteContext) → m + undone writes ≡ n + undone (write ∷ writes))
      → after m (before ++ (write ∷ [])) settled
        ≡ after n before (settled >>= λ rest. ok (write ∷ rest))
  after-cons n before write (ok writes) m h = rw (h writes) (
      ap (λ l. ok (context (n + undone (write ∷ writes)) l))
        (sym (snoc-append before write writes)))
  after-cons n before write (err e) m h = refl

  abbrev pub Joined :
      ℕ → List WriteContext → List (ClientResult WriteResponse) → List WriteContext → Type 0
  Joined n before answers writes =
      join accept_write (indexes_of (length before) writes) answers
        (context (n + undone writes) (before ++ writes))
      ≡ after n before (settle answers writes)

  -- What is joined once the head is behind.
  Joined-cons :
      (n m : ℕ) (before : List WriteContext) (write : WriteContext)
      (answers : List (ClientResult WriteResponse)) (writes : List WriteContext)
      → ((rest : List WriteContext) → m + undone rest ≡ n + undone (write ∷ rest))
      → Joined m (before ++ (write ∷ [])) answers writes
      → join accept_write
          (indexes_of (suc (length before)) writes)
          answers
          (context (m + undone writes) ((before ++ (write ∷ [])) ++ writes))
        ≡ after n before (settle answers writes >>= λ rest. ok (write ∷ rest))
  Joined-cons n m before write answers writes h j =
      let j' : join accept_write (indexes_of (suc (length before)) writes) answers
            (context (m + undone writes) ((before ++ (write ∷ [])) ++ writes))
          ≡ after m (before ++ (write ∷ [])) (settle answers writes) =
        rw (← length-snoc before write) j in
      j' ∙ after-cons n before write (settle answers writes) m h

  -- The same where the head was not changed.
  Joined-kept :
      (n m : ℕ) (before : List WriteContext) (write : WriteContext)
      (answers : List (ClientResult WriteResponse)) (writes : List WriteContext)
      → ((rest : List WriteContext) → m + undone rest ≡ n + undone (write ∷ rest))
      → Joined m (before ++ (write ∷ [])) answers writes
      → join accept_write
          (indexes_of (suc (length before)) writes)
          answers
          (context (n + undone (write ∷ writes)) (before ++ (write ∷ writes)))
        ≡ after n before (settle answers writes >>= λ rest. ok (write ∷ rest))
  Joined-kept n m before write answers writes h j =
      rw (← h writes, snoc-append before write writes)
        (Joined-cons n m before write answers writes h j)

  join-nil :
      (indexes : List ℕ) (ctx : WriteBatchContext) → join accept_write indexes [] ctx ≡ ok ctx
  unfolding join
  join-nil [] ctx = refl
  join-nil (i ∷ indexes) ctx = refl

  pub join-Joined :
      (n : ℕ) (before : List WriteContext) (answers : List (ClientResult WriteResponse))
      (writes : List WriteContext)
      → Joined n before answers writes
  unfolding join settle
  join-Joined n before answers [] = join-end answers
    where
      join-end :
          (answers : List (ClientResult WriteResponse))
          → join accept_write [] answers (context (n + 0) (before ++ []))
            ≡ after n before (settle answers [])
      join-end [] = refl
      join-end (a ∷ answers) = refl
  join-Joined n before [] (write ∷ writes) =
      join-nil (indexes_of (length before) (write ∷ writes))
        (context (n + undone (write ∷ writes)) (before ++ (write ∷ writes)))
  join-Joined n before (ok response ∷ answers) (write ∷ writes) =
      let kept = join-Joined n (before ++ (write ∷ [])) (ok response ∷ answers) writes in
      let changed = join-Joined n (before ++ (answered response write ∷ [])) answers writes in
      elim (Bool-cases write.done) [
        | inl done ↦
            let j =
              Joined-kept n n before write (ok response ∷ answers) writes (λ rest. rw done refl)
                kept in
            rw done (rw done at j)
        | inr pending ↦ simp pending (
            rw (accept_write-context n before write writes response) (
              Joined-cons n n before (answered response write) answers writes (λ rest. refl)
                changed))
      ]
  join-Joined n before (err e ∷ answers) (write ∷ writes) =
      let kept = join-Joined n (before ++ (write ∷ [])) (err e ∷ answers) writes in
      let left = join-Joined (suc n) (before ++ (write ∷ [])) answers writes in
      elim (Bool-cases write.done) [
        | inl done ↦
            let j =
              Joined-kept n n before write (err e ∷ answers) writes (λ rest. rw done refl) kept in
            rw done (rw done at j)
        | inr pending ↦
            let j =
              Joined-kept n (suc n) before write answers writes (λ rest. rw pending (omega arith))
                left in
            simp pending (by_error (is_retryable e) (simp pending at j))
      ]
    where
      by_error :
          (retryable : ClientResult Bool)
          → join accept_write
              (indexes_of (suc (length before)) writes)
              answers
              (context (n + suc (undone writes)) (before ++ (write ∷ writes)))
            ≡ after n before (settle answers writes >>= λ rest. ok (write ∷ rest))
          → (retryable >>= λ retryable.
              if retryable
              then join accept_write
                  (indexes_of (suc (length before)) writes)
                  answers
                  (context (n + suc (undone writes)) (before ++ (write ∷ writes)))
              else err e)
            ≡ after n before (
                retryable >>= λ retryable.
                if retryable then (settle answers writes >>= λ rest. ok (write ∷ rest)) else err e)
      by_error (ok true) j = j
      by_error (ok false) j = refl
      by_error (err e') j = refl
