-- ===== src/Client/Batch/Decided.antt =====
-- `WriteBatchContext::commit` of client/src/txn.rs with the table of transactions that it commits in.
use sekv.Prelude.{ℕ, zero, suc, ◌≡◌, ◌≢◌, refl, ap, ◌∙◌, sym, Option, none, some, List, All}
use mathlib.Core.Path.{subst}
use sekv.Api.{Value, PutRequest, DeleteRequest, WriteRequest, TxnState, running, aborted, committed}
use sekv.Client.Error.{ClientResult, ok, err}
use sekv.Client.Retry.{RetryState, retry, time_left}
use sekv.Client.TxnTable
use sekv.Client.TxnTable.Refines.{Store, Serves}
use sekv.Client.TxnTable.Refines.Sends
use sekv.Client.TxnTable.Refines.Sends.{
  HoldsState, HoldsVersion, state_key_of, commit_key_of, begin_op, commit_op, result_of, run,
}
use sekv.Client.TxnTable.Refines.Steps.{run-Stepped, commit-Written}
use sekv.Client.Batch.{
  Batching, WriteBatchContext, WriteBatchResponse, with_put, with_delete, new, waiting, after_alloc,
  alloc_txn_version, ◌>>>◌, prepare_intents, start_txn, commit_txn, commit_at, commit_inner, commit,
  respond,
}
use sekv.Client.Batch.Laid.{requests_of}
use sekv.Client.Batch.Fresh.{requests_in, requests_of-new, new-IsCounted, new-DoneLaid}
use sekv.Client.Batch.Keeps.{Keeps, prepare_intents-keeps, alloc_txn_version-keeps}
use sekv.Client.Batch.Phase.{Lays, Kept, All_map, prepare_intents-AllLaid}

>>>-eq-ok :
    {S A B : Type 0} (batching : Batching S) (m : Option (ClientResult A × S))
    (f : A → S → Option (ClientResult B × S)) (b : B) (s' : S)
    → ◌>>>◌ batching m f ≡ some (ok b, s')
    → (a : A) × (s : S) × (m ≡ some (ok a, s)) × (f a s ≡ some (ok b, s'))
>>>-eq-ok batching none f b s' h = absurd (cc)
>>>-eq-ok batching (some (err e, s)) f b s' h = absurd (cc)
>>>-eq-ok batching (some (ok a, s)) f b s' h = (a, s, refl, h)

some_ok-eq :
    {S A : Type 0} {a b : A} {s s' : S}
    → Path (Option (ClientResult A × S)) (some (ok a, s)) (some (ok b, s'))
    → (a ≡ b) × (s ≡ s')
some_ok-eq h = (cc, cc)

some_result-eq :
    {S A : Type 0} {a b : ClientResult A} {s s' : S}
    → Path (Option (ClientResult A × S)) (some (a, s)) (some (b, s'))
    → (a ≡ b) × (s ≡ s')
some_result-eq h = (cc, cc)

-- A begin that returns left the transaction running, unless it was committed or aborted.
begin_op-running :
    (state : Option TxnState)
    → result_of begin_op state ≡ ok tt
    → Sends.next_state begin_op state ≡ some running
begin_op-running none h = refl
begin_op-running (some running) h = refl
begin_op-running (some aborted) h = absurd (cc)
begin_op-running (some committed) h = absurd (cc)

-- A commit that returns met the transaction running, where it was not committed before.
commit_op-running :
    (v : ℕ) (state : Option TxnState)
    → state ≢ some committed
    → result_of (commit_op v) state ≡ ok tt
    → state ≡ some running
commit_op-running v none n h = absurd (cc)
commit_op-running v (some running) n h = refl
commit_op-running v (some aborted) n h = absurd (cc)
commit_op-running v (some committed) n h = absurd (n refl)

module _ {S : Type 0} (batching : Batching S) (Laid : S → ℕ → WriteRequest → Type 0)
    (lays : Lays batching Laid) where
  -- What is laid stays so, in the same transaction.
  abbrev Carries : WriteBatchContext → WriteBatchContext → S → S → Type 0
  Carries self next s s' =
      ((v : ℕ) (write : WriteRequest) → Laid s v write → Laid s' v write)
      × (next.start_version ≡ self.start_version)

  alloc_txn_version-Carries :
      (fuel version : ℕ) (self next : WriteBatchContext) (s s' : S)
      → alloc_txn_version batching fuel self s ≡ some (ok (version, next), s')
      → Carries self next s s'
  unfolding alloc_txn_version
  alloc_txn_version-Carries zero version self next s s' h = absurd (cc)
  alloc_txn_version-Carries (suc fuel) version self next s s' h =
      by_answer (batching.alloc_txn_id s).0 h
        (λ mid t k. alloc_txn_version-Carries fuel version mid next t s' k)
    where
      allocated : S
      allocated = (batching.alloc_txn_id s).1

      by_wait :
          (wait : ClientResult (ℕ × RetryState))
          → waiting batching (alloc_txn_version batching fuel) self allocated wait
            ≡ some (ok (version, next), s')
          → ((mid : WriteBatchContext) (t : S)
              → alloc_txn_version batching fuel mid t ≡ some (ok (version, next), s')
              → Carries mid next t s')
          → Carries self next s s'
      by_wait (err e) k ih = absurd (cc)
      by_wait (ok (interval, state)) k ih =
          let c =
            ih (record self { retry_state = state }) (batching.cluster.sleep allocated interval)
              k in
          (
            λ v write l.
                c.0 v write
                  (lays.sleep_keeps allocated interval v write (lays.alloc_keeps s v write l)),
            c.1,
          )

      by_answer :
          (answer : ClientResult ℕ)
          → after_alloc batching (alloc_txn_version batching fuel) self answer allocated
            ≡ some (ok (version, next), s')
          → ((mid : WriteBatchContext) (t : S)
              → alloc_txn_version batching fuel mid t ≡ some (ok (version, next), s')
              → Carries mid next t s')
          → Carries self next s s'
      by_answer (ok value) k ih =
          let e : allocated ≡ s' = cc in
          let n : self ≡ next = cc in
          subst (λ t. Carries self next s t) e
            (lays.alloc_keeps s, ap (λ (c : WriteBatchContext). c.start_version) (sym n))
      by_answer (err e) k ih =
          by_wait (retry (batching.cluster.now allocated) e self.retry_state) k ih

  module _ (n : ℕ) (P : S → Type 0) (keeps : Keeps batching P) where
    -- The table was asked for the commit at the version of the response, in a state of the world where the
    -- intent of every write was laid.
    abbrev Asked : ℕ → List WriteRequest → WriteBatchResponse → S → Type 0
    Asked v requests response s' =
        (s : S) × (timeout : Option ℕ) × All (Laid s v) requests
        × (TxnTable.commit_txn batching.cluster timeout (suc n) v response.version s
            ≡ some (ok tt, s'))
        × P s

    commit-AllLaid :
        (self next : WriteBatchContext) (s s' : S) (response : WriteBatchResponse)
        → Kept batching Laid lays self s
        → P s
        → commit_inner batching (suc n) self s ≡ some (ok (response, next), s')
        → Asked self.start_version (requests_of self.writes) response s'
    unfolding commit_inner commit_at commit_txn respond
    commit-AllLaid self next s s' response k p h =
        let a =
          >>>-eq-ok batching (prepare_intents batching (suc n) self s)
            (λ prepared t.
              ◌>>>◌ batching (alloc_txn_version batching (suc n) prepared t) (λ allocated.
                commit_at batching (suc n) (record (allocated.1) { commit_version = allocated.0 })))
            (response, next) s' h in
        let b =
          >>>-eq-ok batching (alloc_txn_version batching (suc n) a.0 a.1)
            (λ allocated.
              commit_at batching (suc n) (record (allocated.1) { commit_version = allocated.0 }))
            (response, next) s' a.3 in
        let ctx = record (b.0.1) { commit_version = b.0.0 } in
        let c =
          >>>-eq-ok batching (commit_txn batching (suc n) ctx b.1)
            (λ done t. some (ok (respond ctx), t)) (response, next) s' b.3 in
        let laid = prepare_intents-AllLaid batching Laid lays (suc n) self a.0 s a.1 k a.2 in
        let carried = alloc_txn_version-Carries (suc n) b.0.0 a.0 b.0.1 a.1 b.1 b.2 in
        let same = some_ok-eq c.3 in
        let version : response.version ≡ ctx.commit_version =
          ap (λ (r : WriteBatchResponse × WriteBatchContext). r.0.version) (sym same.0) in
        let timeout = time_left (batching.cluster.now b.1) ctx.retry_state in
        let start : self.start_version ≡ ctx.start_version = sym (carried.1 ∙ laid.1.0) in
        (
          b.1,
          timeout,
          All_map (requests_of self.writes)
              (λ (write : WriteRequest) l. carried.0 self.start_version write l) laid.0,
          ap (λ v. TxnTable.commit_txn batching.cluster timeout (suc n) v response.version b.1)
                start
              ∙ ap
                  (λ v.
                    TxnTable.commit_txn batching.cluster timeout (suc n) ctx.start_version v b.1)
                  version
              ∙ c.2
              ∙ ap (λ t. some (ok tt, t)) same.1,
          alloc_txn_version-keeps batching P keeps (suc n) a.0 a.1 b.1 (ok b.0)
              (prepare_intents-keeps batching P keeps (suc n) self s a.1 (ok a.0) p a.2) b.2,
        )

  module _ (n : ℕ) (store : S → Store) (serves : Serves batching.cluster store) (v : ℕ) where
    abbrev state_of : S → Option Value
    state_of s = store s (state_key_of batching.cluster v)

    -- The key of the transaction's state holds one of the states or nothing.
    abbrev pub HoldsOne : S → Type 0
    HoldsOne s = (state : Option TxnState) × HoldsState state (state_of s)

    -- As above, and it is not the state of a committed transaction.
    abbrev pub NotCommitted : S → Type 0
    NotCommitted s =
        (state : Option TxnState) × HoldsState state (state_of s) × (state ≢ some committed)

    -- The table was asked for the commit where the intent of every write was laid and the transaction was still
    -- running; it holds the transaction as committed from then on, at the version of the response.
    abbrev pub CommittedOnce : List WriteRequest → WriteBatchResponse → S → Type 0
    CommittedOnce requests response s' =
        (s : S) × (timeout : Option ℕ) × All (Laid s v) requests
        × HoldsState (some running) (state_of s)
        × (TxnTable.commit_txn batching.cluster timeout (suc n) v response.version s
            ≡ some (ok tt, s'))
        × HoldsState (some committed) (state_of s')
        × HoldsVersion response.version (store s' (commit_key_of batching.cluster v))

    -- Where a commit of a transaction returns a response, the intent of every write of the batch was laid while the
    -- transaction was running, and then the table went from that to committed, with the response's version as the
    -- value of its commit key. The nodes lay an intent that they answer for, and keep it; the table's group answers
    -- its writes; the state's key holds one of the states or nothing at first, and nobody else commits the
    -- transaction or writes another value to that key while the commit runs.
    pub commit-CommittedOnce :
        (deletes : List (ℕ × DeleteRequest)) (puts : List (ℕ × PutRequest)) (deadline : Option ℕ)
        (next : WriteBatchContext) (s s' : S) (response : WriteBatchResponse)
        → Keeps batching NotCommitted
        → HoldsOne s
        → commit batching (suc n) (new v deletes puts deadline) s ≡ some (ok (response, next), s')
        → CommittedOnce (requests_in deletes puts) response s'
    unfolding commit new with_put with_delete start_txn
    commit-CommittedOnce deletes puts deadline next s s' response keeps holds h =
        let self = new v deletes puts deadline in
        let started =
          >>>-eq-ok batching (start_txn batching (suc n) self s)
            (λ started. commit_inner batching (suc n) self) (response, next) s' h in
        let begun =
          by_begin started.1 (time_left (batching.cluster.now s) self.retry_state) holds
            started.2 in
        let first =
          commit-AllLaid n NotCommitted keeps self next started.1 s' response
            (
              new-IsCounted v deletes puts deadline,
              new-DoneLaid v deletes puts deadline (Laid started.1),
            )
            begun started.3 in
        let asked =
          subst (λ ws. Asked n NotCommitted keeps v ws response s')
            (requests_of-new v deletes puts deadline) first in
        by_table asked.0 asked.1 asked.2 asked.4 asked.3
      where
        by_begin :
            (t : S) (timeout : Option ℕ)
            → HoldsOne s
            → TxnTable.begin_txn batching.cluster timeout (suc n) v s ≡ some (ok tt, t)
            → NotCommitted t
        by_begin t timeout (state, held) k =
            let r = run-Stepped batching.cluster store serves timeout n v begin_op state s held in
            let same = some_result-eq (sym r.1 ∙ k) in
            (
              some running,
              subst (λ t. HoldsState (some running) (state_of t)) same.1
                  (subst (λ st. HoldsState st (state_of r.0)) (begin_op-running state same.0) r.2),
              λ e. cc,
            )

        by_table :
            (t : S) (timeout : Option ℕ)
            → All (Laid t v) (requests_in deletes puts)
            → NotCommitted t
            → TxnTable.commit_txn batching.cluster timeout (suc n) v response.version t
              ≡ some (ok tt, s')
            → CommittedOnce (requests_in deletes puts) response s'
        by_table t timeout laid (state, held, other) k =
            let r =
              run-Stepped batching.cluster store serves timeout n v (commit_op response.version)
                state t held in
            let ran = some_result-eq (sym r.1 ∙ k) in
            let runs =
              subst (λ st. HoldsState st (state_of t))
                (commit_op-running response.version state other ran.0) held in
            let w =
              commit-Written batching.cluster store serves timeout n v response.version t runs in
            let same = some_result-eq (sym w.1 ∙ k) in
            (
              t,
              timeout,
              laid,
              runs,
              k,
              subst (λ t. HoldsState (some committed) (state_of t)) same.1 w.2,
              subst
                  (λ t. HoldsVersion response.version (store t (commit_key_of batching.cluster v)))
                  same.1 w.3,
            )
