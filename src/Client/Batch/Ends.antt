-- ===== src/Client/Batch/Ends.antt =====
-- The end of the loop of `prepare_intents` of client/src/txn.rs.
use sekv.Prelude.{
  ℕ, zero, suc, ◌+◌, ◌-◌, ◌*◌, ◌≡◌, ◌≤◌, ◌<◌, refl, ap, ◌∙◌, sym, ltb, Bool, true, false, Option,
  some, List, [], ◌∷◌, if◌then◌else◌, map, arith, Option-cases, Bool-cases, inl, inr,
}
use mathlib.Core.Path.{subst}
use sekv.Client.Error.{ClientResult, ok, err, ◌>>=◌, >>=-eq-ok, ok-eq, deadline_exceeded}
use sekv.Client.Retry.{RetryState, force_retry, is_retryable, min, max_interval_ms}
use sekv.Client.Batch.{
  Batching, WriteBatchContext, IntentRequest, update, checked_sub, join, prepared, accept_write,
  doing, prepare_intents_inner, prepare_intents, waiting, after_round,
}
use sekv.Api.{WriteResponse}
use sekv.Client.Batch.Prepare.{tasks_of, ran, round-none, round-some, round-world}

accept_write-retry_state :
    (index : ℕ) (response : WriteResponse) (self next : WriteBatchContext)
    → accept_write index response self ≡ ok next
    → next.retry_state ≡ self.retry_state
unfolding accept_write
accept_write-retry_state index response self next h =
    let a =
      >>=-eq-ok (checked_sub self.num_doing_writes)
        (λ n.
          update index (λ write. record write { response = some response; done = true }) self.writes
          >>= λ writes. ok (record self { num_doing_writes = n; writes = writes }))
        h in
    let b =
      >>=-eq-ok
        (update index (λ write. record write { response = some response; done = true }) self.writes)
        (λ writes. ok (record self { num_doing_writes = a.0; writes = writes })) a.2 in
    sym (ap (λ (c : WriteBatchContext). c.retry_state) (ok-eq b.2))

join-retry_state :
    (indexes : List ℕ) (answers : List (ClientResult WriteResponse)) (self next : WriteBatchContext)
    → join accept_write indexes answers self ≡ ok next
    → next.retry_state ≡ self.retry_state
unfolding join
join-retry_state [] answers self next h =
    sym (ap (λ (c : WriteBatchContext). c.retry_state) (ok-eq h))
join-retry_state (index ∷ indexes) [] self next h =
    sym (ap (λ (c : WriteBatchContext). c.retry_state) (ok-eq h))
join-retry_state (index ∷ indexes) (ok response ∷ answers) self next h =
    let a =
      >>=-eq-ok (accept_write index response self) (λ next. join accept_write indexes answers next)
        h in
    join-retry_state indexes answers a.0 next a.2
    ∙ accept_write-retry_state index response self a.0 a.1
join-retry_state (index ∷ indexes) (err e ∷ answers) self next h =
    by_retry (is_retryable e) (join-retry_state indexes answers self next) h
  where
    by_retry :
        (retryable : ClientResult Bool)
        → (join accept_write indexes answers self ≡ ok next → next.retry_state ≡ self.retry_state)
        → (retryable >>= λ retryable.
            if retryable then join accept_write indexes answers self else err e)
          ≡ ok next
        → next.retry_state ≡ self.retry_state
    by_retry (ok true) ih k = ih k
    by_retry (ok false) ih k = absurd (cc)
    by_retry (err x) ih k = absurd (cc)

-- A wait is granted up to the deadline, which stays.
force_retry-eq-ok :
    (now d interval : ℕ) (self next : RetryState)
    → self.deadline ≡ some d
    → force_retry now self ≡ ok (interval, next)
    → (now ≤ d) × (next.deadline ≡ some d)
unfolding force_retry
force_retry-eq-ok now d interval self next e h = elim (Bool-cases (ltb d now)) [
  | inl late ↦
      let refused : Path (ClientResult (ℕ × RetryState)) (err deadline_exceeded)
          (ok (interval, next)) =
        rw (e, late) at h in
      absurd (cc)
  | inr soon ↦
      let granted : Path (ClientResult (ℕ × RetryState))
          (ok (
            min self.interval_ms (d - now),
            record { interval_ms = min (self.interval_ms * 2) max_interval_ms; deadline = some d },
          ))
          (ok (interval, next)) =
        rw (e, soon) at h in
      (ground arith, sym (ap (λ (p : ℕ × RetryState). p.1.deadline) (ok-eq granted)))
]

module _ {S : Type 0} (batching : Batching S) where
  prepare_intents_inner-retry_state :
      (self next : WriteBatchContext) (s : S) (more : Bool)
      → (prepare_intents_inner batching self s).0 ≡ ok (more, next)
      → next.retry_state ≡ self.retry_state
  unfolding prepare_intents_inner
  prepare_intents_inner-retry_state self next s more h =
      elim (Option-cases (tasks_of batching self s).1) [
        | inl found ↦
            let tasks = (tasks_of batching self s).0 in
            let e =
              round-none batching prepared accept_write (tasks_of batching self s) self s found in
            let a =
              >>=-eq-ok
                (join accept_write (map (λ task. task.0) tasks)
                  (map prepared (ran batching self s).0) self)
                doing (sym (ap (λ p. p.0) e) ∙ h) in
            sym (ap (λ (p : Bool × WriteBatchContext). p.1.retry_state) (ok-eq a.2))
            ∙ join-retry_state (map (λ task. task.0) tasks) (map prepared (ran batching self s).0)
                self a.0 a.1
        | inr (e, missing) ↦
            let failed =
              round-some batching prepared accept_write (tasks_of batching self s) self s e
                missing in
            let bad : Path (ClientResult (Bool × WriteBatchContext)) (err e) (ok (more, next)) =
              sym failed ∙ h in
            absurd (cc)
      ]

  -- The clock goes forward while a task sleeps, and does not go back.
  pub record IsTimed : Type 0 where
    pub run_forward :
        (s : S) (tasks : List (ℕ × IntentRequest))
        → batching.cluster.now s ≤ batching.cluster.now (batching.run_tasks s tasks).1
    pub sleep_forward :
        (s : S) (interval : ℕ)
        → batching.cluster.now s < batching.cluster.now (batching.cluster.sleep s interval)

  module _ (timed : IsTimed) where
    abbrev Ends : Option (ClientResult WriteBatchContext × S) → Type 0
    Ends r = (x : ClientResult WriteBatchContext × S) × (r ≡ some x)

    -- What the rest of the loop promises once the client slept.
    abbrev Later :
        ℕ → S → (WriteBatchContext → S → Option (ClientResult WriteBatchContext × S)) → Type 0
    Later d s again =
        (mid : WriteBatchContext) (t : S)
        → mid.retry_state.deadline ≡ some d
        → batching.cluster.now s ≤ d
        → batching.cluster.now s < batching.cluster.now t
        → Ends (again mid t)

    waiting-Ends :
        (d : ℕ) (again : WriteBatchContext → S → Option (ClientResult WriteBatchContext × S))
        (mid : WriteBatchContext) (s : S) (wait : ClientResult (ℕ × RetryState))
        → mid.retry_state.deadline ≡ some d
        → force_retry (batching.cluster.now s) mid.retry_state ≡ wait
        → Later d s again
        → Ends (waiting batching again mid s wait)
    waiting-Ends d again mid s (err e) deadline h later = ((err e, s), refl)
    waiting-Ends d again mid s (ok (interval, state)) deadline h later =
        let granted =
          force_retry-eq-ok (batching.cluster.now s) d interval mid.retry_state state deadline h in
        later (record mid { retry_state = state }) (batching.cluster.sleep s interval) granted.1
          granted.0 (timed.sleep_forward s interval)

    after_round-Ends :
        (d : ℕ) (again : WriteBatchContext → S → Option (ClientResult WriteBatchContext × S))
        (s : S) (r : ClientResult (Bool × WriteBatchContext))
        → ((more : Bool) (mid : WriteBatchContext)
            → r ≡ ok (more, mid)
            → mid.retry_state.deadline ≡ some d)
        → Later d s again
        → Ends (after_round batching again r s)
    after_round-Ends d again s (err e) deadline later = ((err e, s), refl)
    after_round-Ends d again s (ok (false, mid)) deadline later = ((ok mid, s), refl)
    after_round-Ends d again s (ok (true, mid)) deadline later =
        waiting-Ends d again mid s (force_retry (batching.cluster.now s) mid.retry_state)
          (deadline true mid refl) refl later

    prepare_intents_inner-forward :
        (self : WriteBatchContext) (s : S)
        → batching.cluster.now s ≤ batching.cluster.now (prepare_intents_inner batching self s).1
    unfolding prepare_intents_inner
    prepare_intents_inner-forward self s =
        subst (λ t. batching.cluster.now s ≤ batching.cluster.now t)
          (sym (round-world batching prepared accept_write (tasks_of batching self s) self s))
          (timed.run_forward s (map (λ task. task.1) (tasks_of batching self s).0))

    -- The loop of the first phase ends for a transaction with a deadline, on two rounds more than there are
    -- milliseconds left, whatever the nodes answer; the clock goes forward while the client sleeps.
    pub prepare_intents-ends :
        (fuel d : ℕ) (self : WriteBatchContext) (s : S)
        → self.retry_state.deadline ≡ some d
        → d + 2 ≤ fuel + batching.cluster.now s
        → 0 < fuel
        → (r : ClientResult WriteBatchContext × S) × (prepare_intents batching fuel self s ≡ some r)
    unfolding prepare_intents
    prepare_intents-ends zero d self s e l p = absurd (omega arith)
    prepare_intents-ends (suc fuel) d self s e l p =
        let r = prepare_intents_inner batching self s in
        let forward = prepare_intents_inner-forward self s in
        after_round-Ends d (prepare_intents batching fuel) r.1 r.0
          (λ more mid h.
            ap (λ (state : RetryState). state.deadline)
              (prepare_intents_inner-retry_state self mid s more h)
            ∙ e)
          (λ mid t deadline before later.
            prepare_intents-ends fuel d mid t deadline (omega (arith, forward))
              (omega (arith, forward)))
