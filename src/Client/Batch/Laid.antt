-- ===== src/Client/Batch/Laid.antt =====
-- The intents that the first phase of a commit lays: `prepare_intents` of client/src/txn.rs over nodes whose answer to a
-- write of an intent says that it is there.
use sekv.Prelude.{
  ℕ, ◌≡◌, refl, ◌∙◌, sym, Bool, true, false, none, some, List, [], ◌∷◌, if◌then◌else◌, map, All,
}
use mathlib.Core.Path.{subst}
use sekv.Api.{ShardDesc, WriteRequest}
use sekv.Client.Error.{ClientError, ClientResult, ok, err, ◌>>=◌, internal}
use sekv.Client.Retry.{is_retryable}
use sekv.Client.Batch.{
  WriteContext, IntentRequest, write_intent, IntentResponse, written_intent, committed_intent,
  other_intent_response, prepared, prepare_request,
}
use sekv.Client.Batch.Rounds.{settle, settle_skipped, answered}
use sekv.Client.Batch.Prepare.{Spawned, end, skipped, spawned}

-- By its answer, a task that writes an intent has laid it.
abbrev pub LaidBy :
    (ℕ → WriteRequest → Type 0) → ℕ × IntentRequest → ClientResult IntentResponse → Type 0
LaidBy Laid (group, write_intent req) (ok (written_intent (some response))) =
    (write : WriteRequest) → req.write ≡ some write → Laid req.start_version write
LaidBy Laid _ _ = Unit

abbrev pub EachLaid :
    (ℕ → WriteRequest → Type 0)
    → List (ℕ × IntentRequest)
    → List (ClientResult IntentResponse)
    → Type 0
EachLaid Laid (task ∷ tasks) (answer ∷ answers) =
    LaidBy Laid task answer × EachLaid Laid tasks answers
EachLaid Laid _ _ = Unit

-- The intent of each write that is done is laid.
abbrev pub DoneLaid : (ℕ → WriteRequest → Type 0) → ℕ → List WriteContext → Type 0
DoneLaid Laid v = All (λ write. write.done ≡ true → Laid v write.request)

abbrev pub requests_of : List WriteContext → List WriteRequest
requests_of = map (λ write. write.request)

module _ (Laid : ℕ → WriteRequest → Type 0) where
  abbrev pub Settled : ℕ → List WriteContext → List WriteContext → Type 0
  Settled v writes writes' = DoneLaid Laid v writes' × (requests_of writes' ≡ requests_of writes)

  -- The head of what is settled.
  Settled-cons :
      (v : ℕ) (writes writes' : List WriteContext) (write write' : WriteContext)
      (settled : ClientResult (List WriteContext))
      → write'.request ≡ write.request
      → (write'.done ≡ true → Laid v write'.request)
      → (settled >>= λ rest. ok (write' ∷ rest)) ≡ ok writes'
      → ((rest : List WriteContext) → settled ≡ ok rest → Settled v writes rest)
      → Settled v (write ∷ writes) writes'
  Settled-cons v writes writes' write write' (ok rest) e d h k =
      let h' : write' ∷ rest ≡ writes' = cc in
      let r = k rest refl in
      subst (λ l. Settled v (write ∷ writes) l) h' ((d, r.0), λ i. e i ∷ r.1 i)
  Settled-cons v writes writes' write write' (err x) e d h k = absurd (cc)

  -- The head is a write that takes an answer.
  module _ (v : ℕ) (write : WriteContext) (writes writes' : List WriteContext)
      (answers : List (ClientResult IntentResponse)) (pending : write.done ≡ false)
      (d : write.done ≡ true → Laid v write.request)
      (rest : (rest : List WriteContext)
        → settle (map prepared answers) writes ≡ ok rest
        → Settled v writes rest) where
    by_retry :
        (retryable : ClientResult Bool) (e : ClientError)
        → (retryable >>= λ retryable.
            if retryable
            then (settle (map prepared answers) writes >>= λ rest. ok (write ∷ rest))
            else err e)
          ≡ ok writes'
        → Settled v (write ∷ writes) writes'
    by_retry (ok true) e h =
        Settled-cons v writes writes' write write (settle (map prepared answers) writes) refl d h
          rest
    by_retry (ok false) e h = absurd (cc)
    by_retry (err x) e h = absurd (cc)

    refused :
        (e : ClientError)
        → settle (err e ∷ map prepared answers) (write ∷ writes) ≡ ok writes'
        → Settled v (write ∷ writes) writes'
    unfolding settle prepared prepare_request
    refused e h = by_retry (is_retryable e) e (simp pending at h)

    by_answer :
        (group : ℕ) (shard : ShardDesc) (a : ClientResult IntentResponse)
        → LaidBy Laid (group, prepare_request v write shard) a
        → settle (prepared a ∷ map prepared answers) (write ∷ writes) ≡ ok writes'
        → Settled v (write ∷ writes) writes'
    unfolding settle prepared prepare_request
    by_answer group shard (ok (written_intent (some response))) laid h =
        Settled-cons v writes writes' write (answered response write)
          (settle (map prepared answers) writes) refl (λ done. laid write.request refl)
          (simp pending at h) rest
    by_answer group shard (ok (written_intent none)) laid h = refused internal h
    by_answer group shard (ok committed_intent) laid h = refused internal h
    by_answer group shard (ok other_intent_response) laid h = refused internal h
    by_answer group shard (err e) laid h = refused e h

  pub Spawned-Settled :
      {v index : ℕ} {writes : List WriteContext} {tasks : List (ℕ × (ℕ × IntentRequest))}
      → Spawned v index writes tasks
      → (answers : List (ClientResult IntentResponse)) (writes' : List WriteContext)
      → EachLaid Laid (map (λ task. task.1) tasks) answers
      → DoneLaid Laid v writes
      → settle (map prepared answers) writes ≡ ok writes'
      → Settled v writes writes'
  unfolding settle prepared prepare_request
  Spawned-Settled {v} end answers writes' l d h =
      subst (λ w. Settled v [] w) (settled answers h) (tt, refl)
    where
      settled :
          (answers : List (ClientResult IntentResponse))
          → settle (map prepared answers) [] ≡ ok writes'
          → [] ≡ writes'
      settled [] h = cc
      settled (a ∷ answers) h = cc
  Spawned-Settled {v} {writes = write ∷ writes} (skipped pending t) answers writes' l d h =
      Settled-cons v writes writes' write write (settle (map prepared answers) writes) refl d.0
        (sym (settle_skipped (map prepared answers) write writes pending) ∙ h)
        (λ rest k. Spawned-Settled t answers rest l d.1 k)
  Spawned-Settled {v} {writes = write ∷ writes} (spawned group shard pending t) [] writes' l d h =
      let h' : write ∷ writes ≡ writes' = cc in
      subst (λ w. Settled v (write ∷ writes) w) h' (d, refl)
  Spawned-Settled {v} {writes = write ∷ writes} (spawned group shard pending t) (a ∷ answers)
        writes' l d h =
      by_answer v write writes writes' answers pending d.0
        (λ r k. Spawned-Settled t answers r l.1 d.1 k) group shard a l.0 h
