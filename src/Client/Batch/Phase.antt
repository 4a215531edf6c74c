-- ===== src/Client/Batch/Phase.antt =====
-- The loop of the first phase of a commit, `prepare_intents` of client/src/txn.rs.
use sekv.Prelude.{
  ℕ, zero, suc, ◌≡◌, refl, ap, ◌∙◌, sym, ltb, Bool, true, false, Option, some, List, [], ◌∷◌,
  if◌then◌else◌, map, arith, All, Option-cases, inl, inr,
}
use mathlib.Core.Path.{subst}
use sekv.Api.{WriteRequest}
use sekv.Client.Error.{ClientResult, ok, err, >>=-eq-ok, ok-eq}
use sekv.Client.Retry.{RetryState, force_retry}
use sekv.Client.Batch.{
  Batching, WriteContext, WriteBatchContext, IntentRequest, prepared, accept_write,
  prepare_intents_inner, prepare_intents, waiting, after_round,
}
use sekv.Client.Batch.Rounds.{undone, IsCounted, settle, context}
use sekv.Client.Batch.Prepare.{
  spawn-Spawned, tasks_of, ran, prepare_intents_inner-eq-settle, round-some,
}
use sekv.Client.Batch.Laid.{EachLaid, DoneLaid, requests_of, Spawned-Settled}

-- An intent is laid once a node answers that it wrote it, and is there while the commit goes on.
pub record Lays {S : Type 0} (batching : Batching S) (Laid : S → ℕ → WriteRequest → Type 0)
    : Type 0 where
  pub lays :
      (s : S) (tasks : List (ℕ × IntentRequest))
      → EachLaid (Laid (batching.run_tasks s tasks).1) tasks (batching.run_tasks s tasks).0
  pub run_keeps :
      (s : S) (tasks : List (ℕ × IntentRequest)) (v : ℕ) (write : WriteRequest)
      → Laid s v write
      → Laid (batching.run_tasks s tasks).1 v write
  pub sleep_keeps :
      (s : S) (interval v : ℕ) (write : WriteRequest)
      → Laid s v write
      → Laid (batching.cluster.sleep s interval) v write
  pub alloc_keeps :
      (s : S) (v : ℕ) (write : WriteRequest)
      → Laid s v write
      → Laid (batching.alloc_txn_id s).1 v write

pub All_map {ℓ κ} :
    {A : Type ℓ} {P Q : A → Type κ} (xs : List A) → ((a : A) → P a → Q a) → All P xs → All Q xs
All_map [] f h = tt
All_map (x ∷ xs) f h = (f x h.0, All_map xs f h.1)

-- Where nothing is left to do, every intent is laid.
DoneLaid-undone :
    (Laid : ℕ → WriteRequest → Type 0) (v : ℕ) (writes : List WriteContext)
    → undone writes ≡ 0
    → DoneLaid Laid v writes
    → All (Laid v) (requests_of writes)
DoneLaid-undone Laid v [] h d = tt
DoneLaid-undone Laid v (write ∷ writes) h d =
    by_done write.done refl (λ k. DoneLaid-undone Laid v writes k d.1) h
  where
    by_done :
        (done : Bool)
        → write.done ≡ done
        → (undone writes ≡ 0 → All (Laid v) (requests_of writes))
        → (if done then undone writes else suc (undone writes)) ≡ 0
        → All (Laid v) (requests_of (write ∷ writes))
    by_done true e rest k = (d.0 e, rest k)
    by_done false e rest k = absurd (omega arith)

module _ {S : Type 0} (batching : Batching S) (Laid : S → ℕ → WriteRequest → Type 0)
    (lays : Lays batching Laid) where
  abbrev pub Kept : WriteBatchContext → S → Type 0
  Kept self s = IsCounted self × DoneLaid (Laid s) self.start_version self.writes

  -- The same transaction with the same requests.
  abbrev pub Goes : WriteBatchContext → WriteBatchContext → Type 0
  Goes self next =
      (next.start_version ≡ self.start_version)
      × (requests_of next.writes ≡ requests_of self.writes)

  abbrev After : WriteBatchContext → S → Bool × WriteBatchContext → Type 0
  After self s (more, next) = Kept next s × Goes self next × (more ≡ ltb 0 (undone next.writes))

  -- A round keeps what is laid, and lays what it marks as done.
  prepare_intents_inner-Kept :
      (self next : WriteBatchContext) (s : S) (more : Bool)
      → Kept self s
      → (prepare_intents_inner batching self s).0 ≡ ok (more, next)
      → After self (prepare_intents_inner batching self s).1 (more, next)
  unfolding prepare_intents_inner
  prepare_intents_inner-Kept self next s more k h =
      elim (Option-cases (tasks_of batching self s).1) [
        | inl found ↦
            let e = prepare_intents_inner-eq-settle batching self s k.0 found in
            let r =
              >>=-eq-ok (settle (map prepared (ran batching self s).0) self.writes)
                (λ writes. ok (ltb 0 (undone writes), context self (undone writes) writes))
                (sym (ap (λ p. p.0) e) ∙ h) in
            let kept =
              All_map self.writes
                (λ (write : WriteContext) f done.
                  lays.run_keeps s (map (λ task. task.1) (tasks_of batching self s).0)
                    self.start_version write.request (f done))
                k.1 in
            let settled =
              Spawned-Settled (Laid (ran batching self s).1)
                (spawn-Spawned batching s self.start_version 0 self.writes found)
                (ran batching self s).0 r.0
                (lays.lays s (map (λ task. task.1) (tasks_of batching self s).0)) kept r.1 in
            subst (λ s'. After self s' (more, next)) (sym (ap (λ p. p.1) e))
              (subst (λ p. After self (ran batching self s).1 p) (ok-eq r.2)
                ((refl, settled.0), (refl, settled.1), refl))
        | inr (e, missing) ↦
            let failed =
              round-some batching prepared accept_write (tasks_of batching self s) self s e
                missing in
            let bad : Path (ClientResult (Bool × WriteBatchContext)) (err e) (ok (more, next)) =
              sym failed ∙ h in
            absurd (cc)
      ]

  -- What the first phase promises of the batch that it began with.
  abbrev pub AllLaid : WriteBatchContext → WriteBatchContext → S → Type 0
  AllLaid self next s = All (Laid s self.start_version) (requests_of self.writes) × Goes self next

  AllLaid-trans :
      (self mid next : WriteBatchContext) (s : S)
      → Goes self mid
      → AllLaid mid next s
      → AllLaid self next s
  AllLaid-trans self mid next s g l = (
    subst (λ ws. All (Laid s self.start_version) ws) g.1
        (subst (λ v. All (Laid s v) (requests_of mid.writes)) g.0 l.0),
    (l.1.0 ∙ g.0, l.1.1 ∙ g.1),
  )

  -- What the rest of the loop promises of where it goes on.
  abbrev Again :
      WriteBatchContext
      → S
      → (WriteBatchContext → S → Option (ClientResult WriteBatchContext × S))
      → Type 0
  Again next s' again =
      (self : WriteBatchContext) (s : S)
      → Kept self s
      → again self s ≡ some (ok next, s')
      → AllLaid self next s'

  waiting-AllLaid :
      (again : WriteBatchContext → S → Option (ClientResult WriteBatchContext × S))
      (self next : WriteBatchContext) (s s' : S) (wait : ClientResult (ℕ × RetryState))
      → Again next s' again
      → Kept self s
      → waiting batching again self s wait ≡ some (ok next, s')
      → AllLaid self next s'
  waiting-AllLaid again self next s s' (err e) ih k h = absurd (cc)
  waiting-AllLaid again self next s s' (ok (interval, state)) ih k h =
      ih (record self { retry_state = state }) (batching.cluster.sleep s interval)
        (
          k.0,
          All_map self.writes
              (λ (write : WriteContext) f done.
                lays.sleep_keeps s interval self.start_version write.request (f done))
              k.1,
        )
        h

  after_round-AllLaid :
      (again : WriteBatchContext → S → Option (ClientResult WriteBatchContext × S))
      (self next : WriteBatchContext) (s s' : S) (r : ClientResult (Bool × WriteBatchContext))
      → Again next s' again
      → ((more : Bool) (mid : WriteBatchContext) → r ≡ ok (more, mid) → After self s (more, mid))
      → after_round batching again r s ≡ some (ok next, s')
      → AllLaid self next s'
  after_round-AllLaid again self next s s' (err e) ih k h = absurd (cc)
  after_round-AllLaid again self next s s' (ok (false, mid)) ih k h =
      let mid-next : mid ≡ next = cc in
      let here : s ≡ s' = cc in
      let a = k false mid refl in
      let none_left : undone mid.writes ≡ 0 = ground (arith, a.2) in
      subst (λ next. AllLaid self next s') mid-next
        (subst (λ s'. AllLaid self mid s') here
          (AllLaid-trans self mid mid s a.1
            (DoneLaid-undone (Laid s) mid.start_version mid.writes none_left a.0.1, (refl, refl))))
  after_round-AllLaid again self next s s' (ok (true, mid)) ih k h =
      let a = k true mid refl in
      AllLaid-trans self mid next s' a.1 (
        waiting-AllLaid again mid next s s' (force_retry (batching.cluster.now s) mid.retry_state)
          ih a.0 h)

  -- Once the first phase returns, the intent of every write of the batch is laid.
  pub prepare_intents-AllLaid :
      (fuel : ℕ) (self next : WriteBatchContext) (s s' : S)
      → Kept self s
      → prepare_intents batching fuel self s ≡ some (ok next, s')
      → AllLaid self next s'
  unfolding prepare_intents
  prepare_intents-AllLaid zero self next s s' k h = absurd (cc)
  prepare_intents-AllLaid (suc fuel) self next s s' k h =
      let r = prepare_intents_inner batching self s in
      after_round-AllLaid (prepare_intents batching fuel) self next r.1 s' r.0
        (λ mid t kept q. prepare_intents-AllLaid fuel mid next t s' kept q)
        (λ more mid e. prepare_intents_inner-Kept self mid s more k e) h
