-- ===== src/Client/Batch/Keeps.antt =====
-- What the tasks, the waits and the allocation of a version keep is kept by the steps of a commit ahead of the write
-- to the table: client/src/txn.rs.
use sekv.Prelude.{ℕ, zero, suc, ◌≡◌, sym, Bool, true, false, Option, some, List, map}
use mathlib.Core.Path.{subst}
use sekv.Client.Error.{ClientResult, ok, err}
use sekv.Client.Retry.{RetryState, force_retry, retry}
use sekv.Client.Batch.{
  Batching, WriteBatchContext, IntentRequest, prepared, accept_write, prepare_intents_inner,
  prepare_intents, waiting, after_round, after_alloc, alloc_txn_version,
}
use sekv.Client.Batch.Prepare.{tasks_of, round-world}

pub record Keeps {S : Type 0} (batching : Batching S) (P : S → Type 0) : Type 0 where
  pub run_keeps :
      (s : S) (tasks : List (ℕ × IntentRequest)) → P s → P (batching.run_tasks s tasks).1
  pub sleep_keeps : (s : S) (interval : ℕ) → P s → P (batching.cluster.sleep s interval)
  pub alloc_keeps : (s : S) → P s → P (batching.alloc_txn_id s).1

module _ {S : Type 0} (batching : Batching S) (P : S → Type 0) (keeps : Keeps batching P) where
  abbrev Kept : {A : Type 0} → (WriteBatchContext → S → Option (ClientResult A × S)) → Type 0
  Kept {A} step =
      (self : WriteBatchContext) (s s' : S) (r : ClientResult A)
      → P s
      → step self s ≡ some (r, s')
      → P s'

  some-world :
      {A : Type 0} {a b : A} {s s' : S}
      → Path (Option (A × S)) (some (a, s)) (some (b, s'))
      → s ≡ s'
  some-world h = cc

  waiting-keeps :
      {A : Type 0} (again : WriteBatchContext → S → Option (ClientResult A × S))
      (self : WriteBatchContext) (s s' : S) (wait : ClientResult (ℕ × RetryState))
      (r : ClientResult A)
      → Kept again
      → P s
      → waiting batching again self s wait ≡ some (r, s')
      → P s'
  waiting-keeps again self s s' (err e) r ih p h = subst P (some-world h) p
  waiting-keeps again self s s' (ok (interval, state)) r ih p h =
      ih (record self { retry_state = state }) (batching.cluster.sleep s interval) s' r
        (keeps.sleep_keeps s interval p) h

  after_round-keeps :
      (again : WriteBatchContext → S → Option (ClientResult WriteBatchContext × S)) (s s' : S)
      (answer : ClientResult (Bool × WriteBatchContext)) (r : ClientResult WriteBatchContext)
      → Kept again
      → P s
      → after_round batching again answer s ≡ some (r, s')
      → P s'
  after_round-keeps again s s' (err e) r ih p h = subst P (some-world h) p
  after_round-keeps again s s' (ok (false, mid)) r ih p h = subst P (some-world h) p
  after_round-keeps again s s' (ok (true, mid)) r ih p h =
      waiting-keeps again mid s s' (force_retry (batching.cluster.now s) mid.retry_state) r ih p h

  prepare_intents_inner-keeps :
      (self : WriteBatchContext) (s : S) → P s → P (prepare_intents_inner batching self s).1
  unfolding prepare_intents_inner
  prepare_intents_inner-keeps self s p =
      subst P (sym (round-world batching prepared accept_write (tasks_of batching self s) self s))
        (keeps.run_keeps s (map (λ task. task.1) (tasks_of batching self s).0) p)

  pub prepare_intents-keeps :
      (fuel : ℕ) (self : WriteBatchContext) (s s' : S) (r : ClientResult WriteBatchContext)
      → P s
      → prepare_intents batching fuel self s ≡ some (r, s')
      → P s'
  unfolding prepare_intents
  prepare_intents-keeps zero self s s' r p h = absurd (cc)
  prepare_intents-keeps (suc fuel) self s s' r p h =
      let answer = prepare_intents_inner batching self s in
      after_round-keeps (prepare_intents batching fuel) answer.1 s' answer.0 r
        (λ mid t t' q. prepare_intents-keeps fuel mid t t' q) (prepare_intents_inner-keeps self s p)
        h

  after_alloc-keeps :
      (again : WriteBatchContext → S → Option (ClientResult (ℕ × WriteBatchContext) × S))
      (self : WriteBatchContext) (s s' : S) (answer : ClientResult ℕ)
      (r : ClientResult (ℕ × WriteBatchContext))
      → Kept again
      → P s
      → after_alloc batching again self answer s ≡ some (r, s')
      → P s'
  after_alloc-keeps again self s s' (ok value) r ih p h = subst P (some-world h) p
  after_alloc-keeps again self s s' (err e) r ih p h =
      waiting-keeps again self s s' (retry (batching.cluster.now s) e self.retry_state) r ih p h

  pub alloc_txn_version-keeps :
      (fuel : ℕ) (self : WriteBatchContext) (s s' : S) (r : ClientResult (ℕ × WriteBatchContext))
      → P s
      → alloc_txn_version batching fuel self s ≡ some (r, s')
      → P s'
  unfolding alloc_txn_version
  alloc_txn_version-keeps zero self s s' r p h = absurd (cc)
  alloc_txn_version-keeps (suc fuel) self s s' r p h =
      let answer = batching.alloc_txn_id s in
      after_alloc-keeps (alloc_txn_version batching fuel) self answer.1 s' answer.0 r
        (λ mid t t' q. alloc_txn_version-keeps fuel mid t t' q) (keeps.alloc_keeps s p) h
