-- ===== src/Client/Batch/Commits.antt =====
-- The task that commits the intents: `commit_intents` and `commit_intents_inner` of client/src/txn.rs.
use sekv.Prelude.{
  ℕ, zero, suc, ◌+◌, ◌≡◌, refl, ap, ◌∙◌, sym, Bool, true, false, none, List, [], ◌∷◌, map, arith,
  length, Option-cases, Bool-cases, inl, inr,
}
use sekv.Api.{ShardDesc}
use sekv.Client.Error.{ClientResult, ok, err, ◌>>=◌, >>=-eq-ok, ok-eq}
use sekv.Client.Retry.{is_retryable}
use sekv.Client.Batch.{
  Batching, WriteContext, WriteBatchContext, IntentRequest, IntentResponse, committed_intent,
  written_intent, other_intent_response, Tasks, prepend, spawn, update, checked_sub, join,
  committed, accept_commit, doing, not_done, commit_request, commit_intents_inner, commit_rounds,
  commit_intents, user_key, after_commits,
}
use sekv.Client.Batch.Rounds.{undone, IsCounted}
use sekv.Client.Batch.Prepare.{round-none, round-some}

checked_sub-eq-ok : (n : ℕ) {m : ℕ} → checked_sub n ≡ ok m → suc m ≡ n
unfolding checked_sub
checked_sub-eq-ok zero h = absurd (cc)
checked_sub-eq-ok (suc n) h = ap suc (sym (ok-eq h))

accept_commit-eq-ok :
    (index : ℕ) (answer : Unit {0}) (self next : WriteBatchContext)
    → accept_commit index answer self ≡ ok next
    → suc next.num_doing_writes ≡ self.num_doing_writes
unfolding accept_commit
accept_commit-eq-ok index answer self next h =
    let a =
      >>=-eq-ok (update index (λ write. record write { done = true }) self.writes)
        (λ writes. checked_sub self.num_doing_writes >>= λ n.
          ok (record self { num_doing_writes = n; writes = writes }))
        h in
    let b =
      >>=-eq-ok (checked_sub self.num_doing_writes)
        (λ n. ok (record self { num_doing_writes = n; writes = a.0 })) a.2 in
    ap suc (sym (ap (λ (c : WriteBatchContext). c.num_doing_writes) (ok-eq b.2)))
    ∙ checked_sub-eq-ok self.num_doing_writes b.1

-- No error of a commit is retried, so that a round that returns a context joined every task.
join-commit :
    (indexes : List ℕ) (answers : List (ClientResult IntentResponse))
    (self next : WriteBatchContext)
    → length answers ≡ length indexes
    → join accept_commit indexes (map committed answers) self ≡ ok next
    → next.num_doing_writes + length indexes ≡ self.num_doing_writes
unfolding join committed is_retryable
join-commit [] answers self next l h =
    omega (arith, ap (λ (c : WriteBatchContext). c.num_doing_writes) (ok-eq h))
join-commit (index ∷ indexes) [] self next l h = absurd (omega arith)
join-commit (index ∷ indexes) (ok committed_intent ∷ answers) self next l h =
    let a =
      >>=-eq-ok (accept_commit index tt self)
        (λ next. join accept_commit indexes (map committed answers) next) h in
    omega (
      arith,
      accept_commit-eq-ok index tt self a.0 a.1,
      join-commit indexes answers a.0 next (omega arith) a.2,
    )
join-commit (index ∷ indexes) (ok (written_intent r) ∷ answers) self next l h = absurd (cc)
join-commit (index ∷ indexes) (ok other_intent_response ∷ answers) self next l h = absurd (cc)
join-commit (index ∷ indexes) (err e ∷ answers) self next l h = absurd (cc)

length-prepend :
    (index n : ℕ) (request : ShardDesc → IntentRequest) (rest : Tasks)
    (answer : ClientResult (ℕ × ShardDesc))
    → (rest.1 ≡ none → length rest.0 ≡ n)
    → (prepend index request rest answer).1 ≡ none
    → length (prepend index request rest answer).0 ≡ suc n
length-prepend index n request rest (err e) k h = absurd (cc)
length-prepend index n request rest (ok (group, shard)) k h = ap suc (k h)

module _ {S : Type 0} (batching : Batching S) (s : S)
    (request : WriteContext → ShardDesc → IntentRequest) (index_of : ℕ → WriteContext → ℕ) where
  length-spawn :
      (index : ℕ) (writes : List WriteContext)
      → (spawn batching s request index_of index writes).1 ≡ none
      → length (spawn batching s request index_of index writes).0 ≡ undone writes
  unfolding spawn
  length-spawn index [] h = refl
  length-spawn index (write ∷ writes) h =
      let k = length-spawn (suc index) writes in
      elim (Bool-cases write.done) [
        | inl d ↦ simp d (k (simp d at h))
        | inr d ↦ simp d (
            length-prepend (index_of index write) (undone writes) (request write)
              (spawn batching s request index_of (suc index) writes)
              (batching.cluster.find_shard s write.table_id (user_key write)) k (simp d at h))
      ]

undone-not_done : (writes : List WriteContext) → undone (map not_done writes) ≡ length writes
undone-not_done [] = refl
undone-not_done (write ∷ writes) = ap suc (undone-not_done writes)

-- Each task is joined once.
abbrev pub AnswersAll : {S : Type 0} → Batching S → Type 0
AnswersAll {S} batching =
    (s : S) (tasks : List (ℕ × IntentRequest))
    → length (batching.run_tasks s tasks).0 ≡ length tasks

length-map {ℓ κ} :
    {A : Type ℓ} {B : Type κ} (f : A → B) (xs : List A) → length (map f xs) ≡ length xs
length-map f [] = refl
length-map f (x ∷ xs) = ap suc (length-map f xs)

-- The context that `commit_intents` begins with.
abbrev pub all_undone : WriteBatchContext → WriteBatchContext
all_undone self = record self {
  num_doing_writes = length self.writes;
  writes = map not_done self.writes;
}

module _ {S : Type 0} (batching : Batching S) (answers_all : AnswersAll batching) where
  abbrev tasks_at : WriteBatchContext → S → Tasks
  tasks_at self s =
      spawn batching s (commit_request self.start_version self.commit_version)
        (λ index write. write.index) 0 self.writes

  -- A round leaves no writes, or fails.
  commit_intents_inner-left :
      (self next : WriteBatchContext) (s : S) (more : Bool)
      → IsCounted self
      → (commit_intents_inner batching self s).0 ≡ ok (more, next)
      → more ≡ false
  unfolding commit_intents_inner
  commit_intents_inner-left self next s more c h = elim (Option-cases (tasks_at self s).1) [
    | inl found ↦
        let tasks = (tasks_at self s).0 in
        let answers = (batching.run_tasks s (map (λ task. task.1) tasks)).0 in
        let e = round-none batching committed accept_commit (tasks_at self s) self s found in
        let a =
          >>=-eq-ok (join accept_commit (map (λ task. task.0) tasks) (map committed answers) self)
            doing (sym (ap (λ p. p.0) e) ∙ h) in
        let counted =
          join-commit (map (λ task. task.0) tasks) answers self a.0
            (answers_all s (map (λ task. task.1) tasks)
              ∙ length-map (λ task. task.1) tasks
              ∙ sym (length-map (λ task. task.0) tasks))
            a.1 in
        let spawned =
          length-spawn batching s (commit_request self.start_version self.commit_version)
            (λ index write. write.index) 0 self.writes found in
        let none_left : a.0.num_doing_writes ≡ 0 =
          omega (arith, counted, spawned, c, length-map (λ task. task.0) tasks) in
        sym (ap (λ p. p.0) (ok-eq a.2)) ∙ ground (arith, none_left)
    | inr (e, missing) ↦
        let failed =
          round-some batching committed accept_commit (tasks_at self s) self s e missing in
        let bad : Path (ClientResult (Bool × WriteBatchContext)) (err e) (ok (more, next)) =
          sym failed ∙ h in
        absurd (cc)
  ]

  after_commits-left :
      (again : WriteBatchContext → S → S) (interval : ℕ) (s : S)
      (r : ClientResult (Bool × WriteBatchContext))
      → ((more : Bool) (next : WriteBatchContext) → r ≡ ok (more, next) → more ≡ false)
      → after_commits batching again interval r s ≡ s
  after_commits-left again interval s (err e) h = refl
  after_commits-left again interval s (ok (false, next)) h = refl
  after_commits-left again interval s (ok (true, next)) h = absurd (cc (h true next refl))

  -- The task that commits the intents of a batch makes one round, whatever the nodes answer, if each task of
  -- the round is joined: a round that fails is never tried again.
  pub commit_intents-one_round :
      (self : WriteBatchContext) (s : S)
      → commit_intents batching self s ≡ (commit_intents_inner batching (all_undone self) s).1
  unfolding commit_intents commit_rounds
  commit_intents-one_round self s =
      let r = commit_intents_inner batching (all_undone self) s in
      after_commits-left (commit_rounds batching (3 ∷ 5 ∷ [])) 1 r.1 r.0 (λ more next h.
        commit_intents_inner-left (all_undone self) next s more (sym (undone-not_done self.writes))
          h)
