-- ===== src/Client/Batch.antt =====
-- `WriteBatchContext` of client/src/txn.rs: the two phases of a transaction's commit. `Batching` stands for what
-- it calls beside the transaction table. The tasks that a round spawns run together in `run_tasks`, which
-- says how they interleave; a task that cannot be joined is the error `internal`, as `From<JoinError>` has it.
-- The heartbeats of `lease_txn`, which never ends, are steps of the world between those of the commit.
pub mod Rounds
pub mod Prepare
pub mod Laid
pub mod Phase
pub mod Commits
pub mod Keeps
pub mod Fresh
pub mod Decided
pub mod Ends
use sekv.Prelude.{
  ℕ, zero, suc, ◌+◌, ◌-◌, ltb, Bool, true, false, Option, none, some, List, [], ◌∷◌, ◌++◌,
  if◌then◌else◌, map, length,
}
use sekv.Prelude.Bytes.{Bytes}
use sekv.Api.{
  Value, ShardDesc, PutRequest, DeleteRequest, WriteRequest, put_request, delete_request,
  WriteResponse, WriteIntentRequest, CommitIntentRequest,
}
use sekv.Client.Error.{ClientError, ClientResult, ok, err, ◌>>=◌, internal, panicked}
use sekv.Client.Retry.{RetryState, with_deadline_opt, time_left, is_retryable, force_retry, retry}
use sekv.Client.TxnTable.{Cluster}
use sekv.Client.TxnTable

pub data IntentRequest : Type 0 where
  write_intent : WriteIntentRequest → IntentRequest
  commit_intent : CommitIntentRequest → IntentRequest

-- The response to a write of an intent may lack its answer; the other responses are one.
pub data IntentResponse : Type 0 where
  written_intent : Option WriteResponse → IntentResponse
  committed_intent : IntentResponse
  other_intent_response : IntentResponse

pub record Batching (S : Type 0) : Type 0 where
  pub cluster : Cluster S
  pub run_tasks : S → List (ℕ × IntentRequest) → List (ClientResult IntentResponse) × S
  pub alloc_txn_id : S → ClientResult ℕ × S

pub record WriteContext : Type 0 where
  pub table_id : ℕ
  pub request : WriteRequest
  pub response : Option WriteResponse
  pub index : ℕ
  pub done : Bool

pub record WriteBatchResponse : Type 0 where
  pub version : ℕ
  pub deletes : List (Option Value)
  pub puts : List (Option Value)

pub record WriteBatchContext : Type 0 where
  pub writes : List WriteContext
  pub num_doing_writes : ℕ
  pub num_deletes : ℕ
  pub start_version : ℕ
  pub commit_version : ℕ
  pub retry_state : RetryState

unfoldable pub with_put : ℕ → ℕ × PutRequest → WriteContext
with_put index (table_id, put) = record {
  table_id = table_id;
  request = put_request put;
  response = none;
  index = index;
  done = false;
}

unfoldable pub with_delete : ℕ → ℕ × DeleteRequest → WriteContext
with_delete index (table_id, delete) = record {
  table_id = table_id;
  request = delete_request delete;
  response = none;
  index = index;
  done = false;
}

-- `WriteContext::user_key`
unfoldable pub user_key : WriteContext → Bytes
user_key write = elim (write.request) [ put_request put ↦ put.key | delete_request del ↦ del.key ]

-- `into_iter().enumerate().map(f)`, from an index on
unfoldable pub enumerate {ℓ} :
    {A : Type ℓ} → (ℕ → A → WriteContext) → ℕ → List A → List WriteContext
enumerate f index [] = []
enumerate f index (x ∷ xs) = f index x ∷ enumerate f (suc index) xs

-- `WriteBatchContext::new`
unfoldable pub new :
    ℕ → List (ℕ × DeleteRequest) → List (ℕ × PutRequest) → Option ℕ → WriteBatchContext
unfolding with_put with_delete enumerate
new start_version deletes puts deadline = record {
  writes = enumerate with_delete 0 deletes ++ enumerate with_put 0 puts;
  num_doing_writes = length deletes + length puts;
  num_deletes = length deletes;
  start_version = start_version;
  commit_version = 0;
  retry_state = with_deadline_opt deadline;
}

abbrev pub Tasks : Type 0
Tasks = List (ℕ × (ℕ × IntentRequest)) × Option ClientError

-- The task of a write whose shard is looked up, before those of the other writes.
abbrev pub prepend : ℕ → (ShardDesc → IntentRequest) → Tasks → ClientResult (ℕ × ShardDesc) → Tasks
prepend index request rest (err e) = ([], some e)
prepend index request rest (ok (group, shard)) = ((index, (group, request shard)) ∷ rest.0, rest.1)

-- A task is spawned for each write that is not done: its group and request, and the index that it answers
-- with. A shard that is not found ends the loop, with the tasks that are spawned by then.
module _ {S : Type 0} (batching : Batching S) (s : S)
    (request : WriteContext → ShardDesc → IntentRequest) (index_of : ℕ → WriteContext → ℕ) where
  unfoldable pub spawn : ℕ → List WriteContext → Tasks
  spawn index [] = ([], none)
  spawn index (write ∷ writes) =
      let rest = spawn (suc index) writes in
      if write.done
      then rest
      else prepend (index_of index write) (request write) rest
          (batching.cluster.find_shard s write.table_id (user_key write))

-- A write of the list that a task's answer changes; no write has an index out of bounds.
unfoldable pub update :
    ℕ → (WriteContext → WriteContext) → List WriteContext → ClientResult (List WriteContext)
update index f [] = err panicked
update zero f (write ∷ writes) = ok (f write ∷ writes)
update (suc index) f (write ∷ writes) = do updated ← update index f writes; ok (write ∷ updated)

unfoldable pub checked_sub : ℕ → ClientResult ℕ
checked_sub zero = err panicked
checked_sub (suc n) = ok n

-- What the task of a write answers.
unfoldable pub prepared : ClientResult IntentResponse → ClientResult WriteResponse
prepared (ok (written_intent (some response))) = ok response
prepared (ok _) = err internal
prepared (err e) = err e

unfoldable pub committed : ClientResult IntentResponse → ClientResult (Unit {0})
committed (ok committed_intent) = ok tt
committed (ok _) = err internal
committed (err e) = err internal

-- The loop over the handles: `accept` is what the round does with the answer of a task.
unfoldable pub join :
    {A : Type 0}
    → (ℕ → A → WriteBatchContext → ClientResult WriteBatchContext)
    → List ℕ
    → List (ClientResult A)
    → WriteBatchContext
    → ClientResult WriteBatchContext
join accept [] answers self = ok self
join accept (index ∷ indexes) [] self = ok self
join accept (index ∷ indexes) (ok answer ∷ answers) self = do
  next ← accept index answer self
  join accept indexes answers next
join accept (index ∷ indexes) (err e ∷ answers) self =
    let rest = join accept indexes answers self in
    do retryable ← is_retryable e; if retryable then rest else err e

unfoldable pub accept_write : ℕ → WriteResponse → WriteBatchContext → ClientResult WriteBatchContext
unfolding checked_sub update
accept_write index response self = do
  num_doing_writes ← checked_sub self.num_doing_writes
  writes ←
      update index (λ write. record write { response = some response; done = true }) self.writes
  ok (record self { num_doing_writes = num_doing_writes; writes = writes })

unfoldable pub accept_commit : ℕ → Unit {0} → WriteBatchContext → ClientResult WriteBatchContext
unfolding checked_sub update
accept_commit index answer self = do
  writes ← update index (λ write. record write { done = true }) self.writes
  num_doing_writes ← checked_sub self.num_doing_writes
  ok (record self { num_doing_writes = num_doing_writes; writes = writes })

-- Whether a round leaves writes to do.
abbrev pub doing : WriteBatchContext → ClientResult (Bool × WriteBatchContext)
doing self = ok (ltb 0 self.num_doing_writes, self)

abbrev prev_value_of : Option WriteResponse → Option Value
prev_value_of none = none
prev_value_of (some response) = response.prev_value

-- The values before the writes, those of the deletes and those of the puts.
unfoldable pub prev_values : List WriteContext → List (Option Value) × List (Option Value)
prev_values [] = ([], [])
prev_values (write ∷ writes) =
    let rest = prev_values writes in
    elim (write.request) [
      | delete_request del ↦ (prev_value_of write.response ∷ rest.0, rest.1)
      | put_request put ↦ (rest.0, prev_value_of write.response ∷ rest.1)
    ]

abbrev without_response : WriteContext → WriteContext
without_response write = record write { response = none }

abbrev not_done : WriteContext → WriteContext
not_done write = record write { done = false }

-- The end of `commit_inner`
unfoldable pub respond : WriteBatchContext → WriteBatchResponse × WriteBatchContext
unfolding prev_values
respond self =
    let values = prev_values self.writes in
    (
      record { version = self.commit_version; deletes = values.0; puts = values.1 },
      record self { writes = map without_response self.writes },
    )

unfoldable pub prepare_request : ℕ → WriteContext → ShardDesc → IntentRequest
prepare_request start_version write shard =
    write_intent
      (record { shard_id = shard.id; start_version = start_version; write = some write.request })

unfoldable pub commit_request : ℕ → ℕ → WriteContext → ShardDesc → IntentRequest
commit_request start_version commit_version write shard = commit_intent (record {
  shard_id = shard.id;
  start_version = start_version;
  commit_version = commit_version;
  user_key = user_key write;
})

module _ {S : Type 0} (batching : Batching S) where
  -- A round: the tasks are spawned and joined.
  abbrev pub round :
      {A : Type 0}
      → (ClientResult IntentResponse → ClientResult A)
      → (ℕ → A → WriteBatchContext → ClientResult WriteBatchContext)
      → List (ℕ × (ℕ × IntentRequest)) × Option ClientError
      → WriteBatchContext
      → S
      → ClientResult (Bool × WriteBatchContext) × S
  round answer accept (tasks, some e) self s =
      (err e, (batching.run_tasks s (map (λ task. task.1) tasks)).1)
  round answer accept (tasks, none) self s =
      let (answers, s') = batching.run_tasks s (map (λ task. task.1) tasks) in
      (join accept (map (λ task. task.0) tasks) (map answer answers) self >>= doing, s')

  unfoldable pub prepare_intents_inner :
      WriteBatchContext → S → ClientResult (Bool × WriteBatchContext) × S
  unfolding spawn prepare_request
  prepare_intents_inner self s =
      round prepared accept_write
        (spawn batching s (prepare_request self.start_version) (λ index write. index) 0 self.writes)
        self s

  -- The index that a task of the second phase answers with is the one that the write keeps.
  unfoldable pub commit_intents_inner :
      WriteBatchContext → S → ClientResult (Bool × WriteBatchContext) × S
  unfolding spawn commit_request
  commit_intents_inner self s =
      round committed accept_commit
        (spawn batching s (commit_request self.start_version self.commit_version)
          (λ index write. write.index) 0 self.writes)
        self s

  -- After a wait the loop goes on.
  abbrev pub waiting :
      {A : Type 0}
      → (WriteBatchContext → S → Option (ClientResult A × S))
      → WriteBatchContext
      → S
      → ClientResult (ℕ × RetryState)
      → Option (ClientResult A × S)
  waiting again self s (err e) = some (err e, s)
  waiting again self s (ok (interval, state)) =
      again (record self { retry_state = state }) (batching.cluster.sleep s interval)

  abbrev pub after_round :
      (WriteBatchContext → S → Option (ClientResult WriteBatchContext × S))
      → ClientResult (Bool × WriteBatchContext)
      → S
      → Option (ClientResult WriteBatchContext × S)
  after_round again (err e) s = some (err e, s)
  after_round again (ok (false, self)) s = some (ok self, s)
  after_round again (ok (true, self)) s =
      waiting again self s (force_retry (batching.cluster.now s) self.retry_state)

  -- The loop of the first phase; with no fuel left there is no result.
  unfoldable pub prepare_intents :
      ℕ → WriteBatchContext → S → Option (ClientResult WriteBatchContext × S)
  prepare_intents zero self s = none
  prepare_intents (suc fuel) self s =
      let r = prepare_intents_inner self s in after_round (prepare_intents fuel) r.0 r.1

  abbrev pub after_alloc :
      (WriteBatchContext → S → Option (ClientResult (ℕ × WriteBatchContext) × S))
      → WriteBatchContext
      → ClientResult ℕ
      → S
      → Option (ClientResult (ℕ × WriteBatchContext) × S)
  after_alloc again self (ok value) s = some (ok (value, self), s)
  after_alloc again self (err e) s =
      waiting again self s (retry (batching.cluster.now s) e self.retry_state)

  unfoldable pub alloc_txn_version :
      ℕ → WriteBatchContext → S → Option (ClientResult (ℕ × WriteBatchContext) × S)
  alloc_txn_version zero self s = none
  alloc_txn_version (suc fuel) self s =
      let r = batching.alloc_txn_id s in after_alloc (alloc_txn_version fuel) self r.0 r.1

  -- What runs after a step of the commit that returned a value; an error ends it.
  infixl 5 ◌>>>◌
  abbrev pub ◌>>>◌ :
      {A B : Type 0}
      → Option (ClientResult A × S)
      → (A → S → Option (ClientResult B × S))
      → Option (ClientResult B × S)
  none >>> f = none
  some (err e, s) >>> f = some (err e, s)
  some (ok a, s) >>> f = f a s

  module _ (fuel : ℕ) where
    unfoldable pub start_txn : WriteBatchContext → S → Option (ClientResult (Unit {0}) × S)
    start_txn self s =
        TxnTable.begin_txn batching.cluster (time_left (batching.cluster.now s) self.retry_state)
          fuel self.start_version s

    unfoldable pub commit_txn : WriteBatchContext → S → Option (ClientResult (Unit {0}) × S)
    commit_txn self s =
        TxnTable.commit_txn batching.cluster (time_left (batching.cluster.now s) self.retry_state)
          fuel self.start_version self.commit_version s

    unfoldable pub abort_txn : WriteBatchContext → S → Option (ClientResult (Unit {0}) × S)
    abort_txn self s =
        TxnTable.abort_txn batching.cluster (time_left (batching.cluster.now s) self.retry_state)
          fuel self.start_version s

    unfoldable pub commit_at :
        WriteBatchContext → S → Option (ClientResult (WriteBatchResponse × WriteBatchContext) × S)
    unfolding respond
    commit_at self s = commit_txn self s >>> λ done s'. some (ok (respond self), s')

    -- The response, and the context of the task that then commits the intents.
    unfoldable pub commit_inner :
        WriteBatchContext → S → Option (ClientResult (WriteBatchResponse × WriteBatchContext) × S)
    unfolding commit_at
    commit_inner self s = prepare_intents fuel self s >>> λ prepared s'.
        (alloc_txn_version fuel prepared s' >>> λ allocated.
        commit_at (record (allocated.1) { commit_version = allocated.0 }))

    -- `WriteBatchContext::commit`
    unfoldable pub commit :
        WriteBatchContext → S → Option (ClientResult (WriteBatchResponse × WriteBatchContext) × S)
    unfolding start_txn commit_inner
    commit self s = start_txn self s >>> λ started. commit_inner self

    -- A turn of the loop of `lease_txn`, which goes on whatever the heartbeat returns.
    unfoldable pub lease_txn : Option ℕ → ℕ → S → Option S
    lease_txn timeout start_version s =
        elim (TxnTable.heartbeat batching.cluster timeout fuel start_version s) [
          | none ↦ none
          | some (result, s') ↦ some (batching.cluster.sleep s' 100)
        ]

  abbrev pub after_commits :
      (WriteBatchContext → S → S) → ℕ → ClientResult (Bool × WriteBatchContext) → S → S
  after_commits again interval (err e) s = s
  after_commits again interval (ok (false, self)) s = s
  after_commits again interval (ok (true, self)) s = again self (batching.cluster.sleep s interval)

  -- The rounds of the task that commits the intents: after a round that leaves writes it sleeps.
  unfoldable pub commit_rounds : List ℕ → WriteBatchContext → S → S
  commit_rounds [] self s = s
  commit_rounds (interval ∷ intervals) self s =
      let r = commit_intents_inner self s in
      after_commits (commit_rounds intervals) interval r.0 r.1

  unfoldable pub commit_intents : WriteBatchContext → S → S
  unfolding commit_rounds
  commit_intents self s =
      commit_rounds (1 ∷ 3 ∷ 5 ∷ [])
        (record self { num_doing_writes = length self.writes; writes = map not_done self.writes }) s
