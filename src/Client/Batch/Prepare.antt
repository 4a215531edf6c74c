-- ===== src/Client/Batch/Prepare.antt =====
-- The first phase of a commit: `prepare_intents_inner` of client/src/txn.rs, with the tasks that it spawns, and the
-- loop of `prepare_intents`.
use sekv.Prelude.{
  ℕ, suc, ◌+◌, ◌≡◌, refl, ap, ◌∙◌, ltb, Bool, true, false, none, some, List, [], ◌∷◌, map, arith,
  Bool-cases, inl, inr,
}
use sekv.Api.{ShardDesc}
use sekv.Client.Error.{ClientError, ClientResult, ok, err, ◌>>=◌}
use sekv.Client.Batch.{
  Batching, WriteContext, WriteBatchContext, IntentRequest, IntentResponse, Tasks, prepend, spawn,
  join, prepared, accept_write, doing, round, prepare_request, prepare_intents_inner, user_key,
}
use sekv.Client.Batch.Rounds.{after, undone, IsCounted, settle, indexes_of, context, join-Joined}

-- The tasks of the writes that are not done.
pub data Spawned (start_version : ℕ)
    : ℕ → List WriteContext → List (ℕ × (ℕ × IntentRequest)) → Type 0 where
  end : {index : ℕ} → Spawned start_version index [] []
  skipped :
      {index : ℕ} {write : WriteContext} {writes : List WriteContext}
      {tasks : List (ℕ × (ℕ × IntentRequest))}
      → write.done ≡ true
      → Spawned start_version (suc index) writes tasks
      → Spawned start_version index (write ∷ writes) tasks
  spawned :
      {index : ℕ} {write : WriteContext} {writes : List WriteContext}
      {tasks : List (ℕ × (ℕ × IntentRequest))} (group : ℕ) (shard : ShardDesc)
      → write.done ≡ false
      → Spawned start_version (suc index) writes tasks
      → Spawned start_version index
          (write ∷ writes)
          ((index, (group, prepare_request start_version write shard)) ∷ tasks)

module _ {S : Type 0} (batching : Batching S) where
  abbrev pub tasks_from : S → ℕ → ℕ → List WriteContext → Tasks
  tasks_from s start_version =
      spawn batching s (prepare_request start_version) (λ index write. index)

  prepend-Spawned :
      (v index : ℕ) (write : WriteContext) (writes : List WriteContext) (rest : Tasks)
      (answer : ClientResult (ℕ × ShardDesc))
      → write.done ≡ false
      → (rest.1 ≡ none → Spawned v (suc index) writes rest.0)
      → (prepend index (prepare_request v write) rest answer).1 ≡ none
      → Spawned v index (write ∷ writes) (prepend index (prepare_request v write) rest answer).0
  prepend-Spawned v index write writes rest (err e) d k h = absurd (cc)
  prepend-Spawned v index write writes rest (ok (group, shard)) d k h = spawned group shard d (k h)

  pub spawn-Spawned :
      (s : S) (v index : ℕ) (writes : List WriteContext)
      → (tasks_from s v index writes).1 ≡ none
      → Spawned v index writes (tasks_from s v index writes).0
  unfolding spawn
  spawn-Spawned s v index [] h = end
  spawn-Spawned s v index (write ∷ writes) h =
      let k = spawn-Spawned s v (suc index) writes in
      elim (Bool-cases write.done) [
        | inl d ↦ simp d (skipped d (k (simp d at h)))
        | inr d ↦ simp d (
            prepend-Spawned v index write writes (tasks_from s v (suc index) writes)
              (batching.cluster.find_shard s write.table_id (user_key write)) d k (simp d at h))
      ]

pub Spawned-indexes :
    {v index : ℕ} {writes : List WriteContext} {tasks : List (ℕ × (ℕ × IntentRequest))}
    → Spawned v index writes tasks
    → map (λ task. task.0) tasks ≡ indexes_of index writes
Spawned-indexes end = refl
Spawned-indexes (skipped d t) = simp d (Spawned-indexes t)
Spawned-indexes (spawned {index = index} group shard d t) =
    simp d (ap (λ l. index ∷ l) (Spawned-indexes t))

module _ {S : Type 0} (batching : Batching S) {A : Type 0}
    (answer : ClientResult IntentResponse → ClientResult A)
    (accept : ℕ → A → WriteBatchContext → ClientResult WriteBatchContext) where
  -- A round where each shard was found.
  pub round-none :
      (tasks : Tasks) (self : WriteBatchContext) (s : S)
      → tasks.1 ≡ none
      → round batching answer accept tasks self s ≡ (
        join accept
              (map (λ task. task.0) tasks.0)
              (map answer (batching.run_tasks s (map (λ task. task.1) tasks.0)).0)
              self
            >>= doing,
        (batching.run_tasks s (map (λ task. task.1) tasks.0)).1,
      )
  round-none (tasks, none) self s h = refl
  round-none (tasks, some e) self s h = absurd (cc)

  -- A round where a shard was not found returns the error.
  pub round-some :
      (tasks : Tasks) (self : WriteBatchContext) (s : S) (e : ClientError)
      → tasks.1 ≡ some e
      → (round batching answer accept tasks self s).0 ≡ err e
  round-some (tasks, none) self s e h = absurd (cc)
  round-some (tasks, some x) self s e h = cc

  -- A round leaves the world as its tasks do.
  pub round-world :
      (tasks : Tasks) (self : WriteBatchContext) (s : S)
      → (round batching answer accept tasks self s).1
        ≡ (batching.run_tasks s (map (λ task. task.1) tasks.0)).1
  round-world (tasks, none) self s = refl
  round-world (tasks, some e) self s = refl

module _ {S : Type 0} (batching : Batching S) (self : WriteBatchContext) (s : S) where
  abbrev pub tasks_of : Tasks
  tasks_of = tasks_from batching s self.start_version 0 self.writes

  abbrev pub ran : List (ClientResult IntentResponse) × S
  ran = batching.run_tasks s (map (λ task. task.1) tasks_of.0)

  abbrev pub left : ClientResult (List WriteContext) → ClientResult (Bool × WriteBatchContext)
  left settled =
      settled >>= λ writes. ok (ltb 0 (undone writes), context self (undone writes) writes)

  abbrev joined_left : ClientResult (List WriteContext) → ClientResult (Bool × WriteBatchContext)
  joined_left settled = after self 0 [] settled >>= doing

  joined_left-left :
      (settled : ClientResult (List WriteContext)) → joined_left settled ≡ left settled
  joined_left-left (ok writes) =
      ap (λ n. ok (ltb 0 n, context self n writes))
        (let e : 0 + undone writes ≡ undone writes = omega arith in e)
  joined_left-left (err e) = refl

  -- A round of the first phase settles each write that is not done by the next answer, in the order of the
  -- writes, and counts what is left, where the context counts the writes that are not done and every shard is
  -- found: no index is out of bounds, and the count does not run below 0.
  pub prepare_intents_inner-eq-settle :
      IsCounted self
      → tasks_of.1 ≡ none
      → prepare_intents_inner batching self s
        ≡ (left (settle (map prepared ran.0) self.writes), ran.1)
  unfolding prepare_intents_inner
  prepare_intents_inner-eq-settle c h =
      let counted : self ≡ context self (0 + undone self.writes) self.writes =
        ap (λ n. context self n self.writes) (c ∙ omega arith) in
      let indexes = Spawned-indexes (spawn-Spawned batching s self.start_version 0 self.writes h) in
      let answers = map prepared ran.0 in
      let joined : join accept_write (map (λ task. task.0) tasks_of.0) answers self
          ≡ after self 0 [] (settle answers self.writes) =
        ap (λ l. join accept_write l answers self) indexes
        ∙ ap (join accept_write (indexes_of 0 self.writes) answers) counted
        ∙ join-Joined self 0 [] answers self.writes in
      round-none batching prepared accept_write tasks_of self s h
      ∙ ap (λ r. (r, ran.1))
          (ap (λ r. r >>= doing) joined ∙ joined_left-left (settle answers self.writes))
