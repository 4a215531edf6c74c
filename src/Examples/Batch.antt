-- ===== src/Examples/Batch.antt =====
-- A commit of one delete and one put, over nodes that write every intent.
use sekv.Prelude.{
  ℕ, suc, ◌+◌, ◌≡◌, refl, ap, ◌⊎◌, inl, inr, false, Option, none, some, List, [], ◌∷◌, arith, map,
  sym,
}
use mathlib.Core.Path.{subst}
use sekv.Prelude.Bytes.{Bytes}
use sekv.Api.{ShardDesc, ShardWriteResponse, PutRequest, put_none, DeleteRequest, WriteRequest}
use sekv.Client.Error.{ClientError, ClientResult, ok, err}
use sekv.Client.Retry.{RetryState, with_deadline_opt, force_retry}
use sekv.Client.TxnTable.{
  Cluster, GroupRequest, write_request, scan_request, GroupResponse, write_response, other_response,
}
use sekv.Client.TxnTable.Refines.{Store, Serves, refusal, put_all}
use sekv.Client.Batch.{
  Batching, IntentRequest, write_intent, commit_intent, IntentResponse, written_intent,
  committed_intent, WriteBatchContext, WriteBatchResponse, new, commit, commit_intents,
  commit_intents_inner, prepare_intents, prepare_intents_inner, prepared, spawn, user_key,
}
use sekv.Client.Batch
use sekv.Client.Retry
use sekv.Client.Builder
use sekv.Client.TxnTable
use sekv.Client.TxnTable.Requests
use sekv.Client.TxnTable.Record
use sekv.Eval.Cas
use sekv.Prelude.Bytes
use sekv.Schema.TxnKeys
use sekv.Client.Batch.Rounds.{settle, IsCounted}
use sekv.Client.Batch.Prepare.{left, ran, tasks_of, prepare_intents_inner-eq-settle}
use sekv.Client.Batch.Laid.{EachLaid}
use sekv.Client.Batch.Phase.{Lays}
use sekv.Client.Batch.Commits.{AnswersAll, all_undone, commit_intents-one_round}
use sekv.Client.Batch.Fresh.{requests_in, new-IsCounted}
use sekv.Client.Batch.Keeps.{Keeps}
use sekv.Client.Batch.Decided.{CommittedOnce, NotCommitted, commit-CommittedOnce}
use sekv.Client.Batch.Ends.{IsTimed, prepare_intents-ends}

-- The table's store, the intents that the nodes hold, and the clock.
record World : Type 0 where
  pub store : Store
  pub intents : List (ℕ × WriteRequest)
  pub clock : ℕ

abbrev shard : ShardDesc
shard = record { id = 2; table_id = 3; range = none }

abbrev resp : ShardWriteResponse
resp = record { deletes = []; puts = [] }

abbrev answer : List PutRequest → World → Option ClientError → ClientResult GroupResponse × World
answer puts world none =
    (ok (write_response resp), record world { store = put_all 7 puts world.store })
answer puts world (some e) = (err e, world)

abbrev request : World → ℕ → GroupRequest → ClientResult GroupResponse × World
request world group (write_request req) = answer req.puts world (refusal 0 req.puts world.store)
request world group (scan_request req) = (ok other_response, world)

abbrev cluster : Cluster World
cluster = record {
  find_shard = λ world table_id key. ok (1, shard);
  request = request;
  now = λ world. world.clock;
  sleep = λ world interval. record world { clock = world.clock + 1 };
  checked_add = λ a b. some (a + b);
  timestamp_millis = λ world. 1000;
  hash_tag = λ start_version. 5;
  txn_table_id = 3;
  txn_max_version = 99;
}

serves : Serves cluster (λ world. World.store world)
serves = record {
  group = λ s. 1;
  shard = λ s. shard;
  found = λ s hash_tag. refl;
  after = λ s puts. (answer puts s (refusal 0 puts (World.store s))).1;
  resp = λ s puts. resp;
  version = λ s puts. 7;
  written = λ s puts h. (rw h refl, λ key. rw h refl);
  refused = λ s puts e h. (rw h refl, λ key. rw h refl);
}

abbrev answer_to : ℕ × IntentRequest → ClientResult IntentResponse
answer_to (group, write_intent req) = ok (written_intent (some (record { prev_value = none })))
answer_to (group, commit_intent req) = ok committed_intent

abbrev hold : ℕ → Option WriteRequest → List (ℕ × WriteRequest) → List (ℕ × WriteRequest)
hold v none intents = intents
hold v (some write) intents = (v, write) ∷ intents

abbrev laid_by : ℕ × IntentRequest → List (ℕ × WriteRequest) → List (ℕ × WriteRequest)
laid_by (group, write_intent req) intents = hold req.start_version req.write intents
laid_by (group, commit_intent req) intents = intents

abbrev lay : List (ℕ × IntentRequest) → List (ℕ × WriteRequest) → List (ℕ × WriteRequest)
lay [] intents = intents
lay (task ∷ tasks) intents = laid_by task (lay tasks intents)

abbrev batching : Batching World
batching = record {
  cluster = cluster;
  run_tasks =
      λ world tasks. (map answer_to tasks, record world { intents = lay tasks world.intents });
  alloc_txn_id = λ world. (ok 40, world);
}

abbrev Holds : ℕ × WriteRequest → List (ℕ × WriteRequest) → Type 0
Holds x [] = ⊥
Holds x (y ∷ ys) = (x ≡ y) ⊎ Holds x ys

abbrev IsLaid : World → ℕ → WriteRequest → Type 0
IsLaid world v write = Holds (v, write) world.intents

Holds-laid_by :
    (x : ℕ × WriteRequest) (task : ℕ × IntentRequest) (l : List (ℕ × WriteRequest))
    → Holds x l
    → Holds x (laid_by task l)
Holds-laid_by x (group, commit_intent req) l h = h
Holds-laid_by x (group, write_intent req) l h = by_write req.write
  where
    by_write : (write : Option WriteRequest) → Holds x (hold req.start_version write l)
    by_write none = h
    by_write (some w) = inr h

Holds-lay :
    (x : ℕ × WriteRequest) (tasks : List (ℕ × IntentRequest)) (l : List (ℕ × WriteRequest))
    → Holds x l
    → Holds x (lay tasks l)
Holds-lay x [] l h = h
Holds-lay x (task ∷ tasks) l h = Holds-laid_by x task (lay tasks l) (Holds-lay x tasks l h)

lay-EachLaid :
    (tasks : List (ℕ × IntentRequest)) (l whole : List (ℕ × WriteRequest))
    → ((x : ℕ × WriteRequest) → Holds x (lay tasks l) → Holds x whole)
    → EachLaid (λ v write. Holds (v, write) whole) tasks (map answer_to tasks)
lay-EachLaid [] l whole h = tt
lay-EachLaid ((group, commit_intent req) ∷ tasks) l whole h = (tt, lay-EachLaid tasks l whole h)
lay-EachLaid ((group, write_intent req) ∷ tasks) l whole h = (
  λ write e.
      h (req.start_version, write)
        (subst (λ w. Holds (req.start_version, write) (hold req.start_version w (lay tasks l)))
          (sym e) (inl refl)),
  lay-EachLaid tasks l whole
      (λ x k. h x (Holds-laid_by x (group, write_intent req) (lay tasks l) k)),
)

lays : Lays batching IsLaid
lays = record {
  lays = λ s tasks. lay-EachLaid tasks s.intents (lay tasks s.intents) (λ x h. h);
  run_keeps = λ s tasks v write h. Holds-lay (v, write) tasks s.intents h;
  sleep_keeps = λ s interval v write h. h;
  alloc_keeps = λ s v write h. h;
}

keeps : Keeps batching (NotCommitted batching IsLaid lays 0 (λ world. World.store world) serves 30)
keeps = record {
  run_keeps = λ s tasks h. h;
  sleep_keeps = λ s interval h. h;
  alloc_keeps = λ s h. h;
}

abbrev world : World
world = record { store = λ key. none; intents = []; clock = 0 }

abbrev deletes : List (ℕ × DeleteRequest)
deletes = (3, record { key = 97 ∷ []; conditions = []; take_prev_value = false }) ∷ []

abbrev puts : List (ℕ × PutRequest)
puts =
    (
      3,
      record {
        put_type = put_none;
        ttl = 0;
        key = 98 ∷ [];
        value = 1 ∷ [];
        conditions = [];
        take_prev_value = false;
      },
    )
    ∷ []

abbrev batch : WriteBatchContext
batch = new 30 deletes puts (some 5)

all_found : (tasks_of batching batch world).1 ≡ none
unfolding spawn new user_key
all_found = refl

prepare_intents_inner-eq-settle_example : prepare_intents_inner batching batch world ≡ (
  left batching batch world (settle (map prepared (ran batching batch world).0) batch.writes),
  (ran batching batch world).1,
)
prepare_intents_inner-eq-settle_example =
    prepare_intents_inner-eq-settle batching batch world counted all_found
  where
    counted : IsCounted batch
    counted = new-IsCounted 30 deletes puts (some 5)

answers_all : AnswersAll batching
answers_all s [] = refl
answers_all s (task ∷ tasks) = ap suc (answers_all s tasks)

commit_intents-one_round_example :
    commit_intents batching batch world ≡ (commit_intents_inner batching (all_undone batch) world).1
commit_intents-one_round_example = commit_intents-one_round batching answers_all batch world

timed : IsTimed batching
timed = record { run_forward = λ s tasks. omega arith; sleep_forward = λ s interval. omega arith }

prepare_intents-ends_example :
    (r : ClientResult WriteBatchContext × World) × (prepare_intents batching 7 batch world ≡ some r)
unfolding new with_deadline_opt
prepare_intents-ends_example =
    prepare_intents-ends batching timed 7 5 batch world refl (omega arith) (omega arith)

abbrev response_of :
    Option (ClientResult (WriteBatchResponse × WriteBatchContext) × World) → WriteBatchResponse
response_of (some (ok (response, next), s)) = response
response_of _ = record { version = 0; deletes = []; puts = [] }

abbrev next_of :
    Option (ClientResult (WriteBatchResponse × WriteBatchContext) × World) → WriteBatchContext
next_of (some (ok (response, next), s)) = next
next_of _ = batch

abbrev world_of : Option (ClientResult (WriteBatchResponse × WriteBatchContext) × World) → World
world_of (some (r, s)) = s
world_of none = world

abbrev done : Option (ClientResult (WriteBatchResponse × WriteBatchContext) × World)
done = commit batching 1 batch world

commits : done ≡ some (ok (response_of done, next_of done), world_of done)
unfolding commit new prepare_intents prepare_intents_inner prepared spawn user_key force_retry
    with_deadline_opt refusal put_all TxnTable.begin_txn TxnTable.commit_txn TxnTable.write
    TxnTable.retrying TxnTable.write_inner Requests.begin_request Requests.commit_request
    Requests.prev_state Builder.ensure_put Builder.ensure Builder.put Builder.taking_prev_value
    Builder.push_expect_not_exists Builder.push_expect_value Builder.new Builder.into
    Builder.verify_conditions Cas.eval_conditions Cas.eval_condition Cas.eval_none Cas.eval_value
    Batch.accept_write Batch.alloc_txn_version Batch.checked_sub Batch.commit_at Batch.commit_inner
    Batch.commit_txn Batch.enumerate Batch.join Batch.prepare_request Batch.prev_values
    Batch.respond Batch.start_txn Batch.update Batch.with_delete Batch.with_put Retry.is_retryable
    Retry.retry Retry.time_left Retry.with_timeout_opt Record.as_str_name Record.from_str_name
    Record.parse_txn_state Record.txn_state_value Record.txn_u64_value Bytes.to_be_bytes
    Bytes.to_le_bytes Bytes.cmp Bytes.eq_bytes Bytes.starts_with TxnKeys.txn_commit_key
    TxnKeys.txn_heartbeat_key TxnKeys.txn_lower_key TxnKeys.txn_prefix TxnKeys.txn_state_key
commits = refl

commit-CommittedOnce_example :
    CommittedOnce batching IsLaid lays 0
      (λ world. World.store world)
      serves
      30
      (requests_in deletes puts)
      (response_of done)
      (world_of done)
commit-CommittedOnce_example =
    commit-CommittedOnce batching IsLaid lays 0 (λ world. World.store world) serves 30 deletes puts
      (some 5) (next_of done) world (world_of done) (response_of done) keeps (none, refl) commits
