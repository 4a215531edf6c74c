-- ===== src/Eval/Txn/Rounds.antt =====
-- The loop of `write_intent` that resolves the intents of other transactions: server/src/replica/eval/cmd_txn.rs.
use sekv.Prelude.{
  ℕ, zero, suc, ◌≤◌, ◌≡◌, ◌≢◌, refl, ◌∙◌, sym, ◌⊎◌, Bool-cases, inl, inr, Bool, true, false, Option,
  none, some, arith, ◌==◌,
}
use mathlib.Core.Path.{subst}
use sekv.Prelude.Bytes.{Bytes}
use sekv.Api.{Value, WriteRequest, user_key_of, TxnIntent, IntentCodec, ExecCtx, WriteIntentRequest}
use sekv.Result.{Error, Result, ok, err, ◌>>=◌}
use sekv.Engine.Group.{GroupEngine}
use sekv.Eval.Forward.{moving_to, forward_or}
use sekv.Eval.Txn.{
  Resolve, read_intent_and_next_key, read_first_non_intent_key, write_on, after_read, write_intent,
}

-- The key has no intent of another transaction.
abbrev pub Settled : ℕ → Result (Option TxnIntent × Option Value) → Type 0
Settled start_version (err e) = Unit
Settled start_version (ok (none, prev_value)) = Unit
Settled start_version (ok (some intent, prev_value)) = intent.start_version ≡ start_version

-- What the loop returns for such a key.
abbrev pub settled :
    GroupEngine
    → Result (Option TxnIntent × Option Value)
    → Result ((Bool × Option Value) × GroupEngine)
settled engine (err e) = err e
settled engine (ok (none, prev_value)) = ok ((false, prev_value), engine)
settled engine (ok (some intent, prev_value)) = ok ((true, prev_value), engine)

module _ (codec : IntentCodec) (resolve : Resolve) (shard_id : ℕ) (key : Bytes)
    (start_version : ℕ) where
  read_first-settled :
      (fuel : ℕ) (engine : GroupEngine)
      → Settled start_version (read_intent_and_next_key codec shard_id key engine)
      → read_first_non_intent_key codec shard_id key resolve start_version (suc fuel) engine
        ≡ some (settled engine (read_intent_and_next_key codec shard_id key engine))
  unfolding read_first_non_intent_key
  read_first-settled fuel engine h = go (read_intent_and_next_key codec shard_id key engine) refl h
    where
      go :
          (r : Result (Option TxnIntent × Option Value))
          → read_intent_and_next_key codec shard_id key engine ≡ r
          → Settled start_version r
          → read_first_non_intent_key codec shard_id key resolve start_version (suc fuel) engine
            ≡ some (settled engine r)
      go (err e) p k = rw (p, read_first_non_intent_key) refl
      go (ok (none, v)) p k = rw (p, read_first_non_intent_key) refl
      go (ok (some intent, v)) p k = ground arith

  read_first-foreign :
      (fuel : ℕ) (engine : GroupEngine) (intent : TxnIntent) (v : Option Value)
      → read_intent_and_next_key codec shard_id key engine ≡ ok (some intent, v)
      → (intent.start_version == start_version) ≡ false
      → read_first_non_intent_key codec shard_id key resolve start_version (suc fuel) engine
        ≡ (elim (resolve intent engine)
            as (λ _. Option (Result ((Bool × Option Value) × GroupEngine))) [
              | err e ↦ some (err e)
              | ok engine' ↦
                  read_first_non_intent_key codec shard_id key resolve start_version fuel engine'
            ])
  unfolding read_first_non_intent_key
  read_first-foreign fuel engine intent v p f = ground arith

  abbrev read_in : GroupEngine → Result (Option TxnIntent × Option Value)
  read_in engine = read_intent_and_next_key codec shard_id key engine

  -- The key has no intent of another transaction after a number of resolutions, if none of them fails.
  abbrev pub SettlesIn : ℕ → GroupEngine → Type 0
  SettlesIn zero engine = Settled start_version (read_in engine)
  SettlesIn (suc n) engine =
      (intent : TxnIntent) (engine' : GroupEngine)
      → resolve intent engine ≡ ok engine'
      → SettlesIn n engine'

  -- The result is what the key holds once it has no intent of another transaction, or the error of the resolution
  -- that failed, after at most a number of resolutions, each of the intent that was read.
  abbrev pub Returns : ℕ → GroupEngine → Result ((Bool × Option Value) × GroupEngine) → Type 0
  Returns zero engine r =
      Settled start_version (read_in engine) × (r ≡ settled engine (read_in engine))
  Returns (suc n) engine r =
      (Settled start_version (read_in engine) × (r ≡ settled engine (read_in engine)))
      ⊎ ((intent : TxnIntent) × (v : Option Value) × (read_in engine ≡ ok (some intent, v))
          × (intent.start_version ≢ start_version)
          × (((e : Error) × (resolve intent engine ≡ err e) × (r ≡ err e))
              ⊎ ((engine' : GroupEngine) × (resolve intent engine ≡ ok engine')
                  × Returns n engine' r)))

  abbrev EndsIn : ℕ → ℕ → GroupEngine → Type 0
  EndsIn fuel n engine =
      (r : Result ((Bool × Option Value) × GroupEngine)) × (read_first_non_intent_key codec shard_id
          key resolve start_version (suc fuel) engine
        ≡ some r)
      × Returns n engine r

  foreign-EndsIn :
      (fuel n : ℕ) (engine : GroupEngine) (intent : TxnIntent) (v : Option Value)
      (resolved : Result GroupEngine)
      → resolve intent engine ≡ resolved
      → read_in engine ≡ ok (some intent, v)
      → (intent.start_version == start_version) ≡ false
      → ((engine' : GroupEngine) → resolve intent engine ≡ ok engine' → EndsIn fuel n engine')
      → EndsIn (suc fuel) (suc n) engine
  foreign-EndsIn fuel n engine intent v (err e) q p f ih = (
    err e,
    read_first-foreign (suc fuel) engine intent v p f ∙ rw q refl,
    inr (intent, v, p, (λ e. ground arith), inl (e, q, refl)),
  )
  foreign-EndsIn fuel n engine intent v (ok engine') q p f ih =
      let rest = ih engine' q in
      (
        rest.0,
        read_first-foreign (suc fuel) engine intent v p f ∙ rw q (rest.1),
        inr (intent, v, p, (λ e. ground arith), inr (engine', q, rest.2)),
      )

  -- The loop ends: if the key has no intent of another transaction after a number of resolutions, unless one of
  -- them fails, one round more is enough. It returns what it read of the key in the engine that the last
  -- resolution left, with whether the transaction's own intent is there, or the error of that read, or the error
  -- of the resolution that failed; each resolution is of the intent of another transaction that was read.
  pub read_first_non_intent_key-ends :
      (n fuel : ℕ) (engine : GroupEngine)
      → n ≤ fuel
      → SettlesIn n engine
      → (r : Result ((Bool × Option Value) × GroupEngine)) × (read_first_non_intent_key codec
            shard_id key resolve start_version
            (suc fuel)
            engine
          ≡ some r)
        × Returns n engine r
  read_first_non_intent_key-ends zero fuel engine h k =
      (settled engine (read_in engine), read_first-settled fuel engine k, (k, refl))
  read_first_non_intent_key-ends (suc n) zero engine h k = absurd (omega arith)
  read_first_non_intent_key-ends (suc n) (suc fuel) engine h k =
      go (read_in engine) refl (λ intent engine' q.
        read_first_non_intent_key-ends n fuel engine' (omega arith) (k intent engine' q))
    where
      here :
          (r : Result (Option TxnIntent × Option Value))
          → read_in engine ≡ r
          → Settled start_version r
          → EndsIn (suc fuel) (suc n) engine
      here r p s =
          let own : Settled start_version (read_in engine) =
            subst (Settled start_version) (sym p) s in
          (
            settled engine (read_in engine),
            read_first-settled (suc fuel) engine own,
            inl (own, refl),
          )

      go :
          (r : Result (Option TxnIntent × Option Value))
          → read_in engine ≡ r
          → ((intent : TxnIntent) (engine' : GroupEngine)
              → resolve intent engine ≡ ok engine'
              → EndsIn fuel n engine')
          → EndsIn (suc fuel) (suc n) engine
      go (err e) p ih = here (err e) p tt
      go (ok (none, v)) p ih = here (ok (none, v)) p tt
      go (ok (some intent, v)) p ih = elim (Bool-cases (intent.start_version == start_version)) [
        | inl own ↦ here (ok (some intent, v)) p (ground arith)
        | inr other ↦
            foreign-EndsIn fuel n engine intent v (resolve intent engine) refl p other (ih intent)
      ]

module _ (codec : IntentCodec) (resolve : Resolve) (fuel : ℕ) (exec_ctx : ExecCtx)
    (engine : GroupEngine) (req : WriteIntentRequest) (write : WriteRequest)
    (given : req.write ≡ some write) (stays : moving_to exec_ctx req.shard_id ≡ ok none) where
  abbrev read : Result (Option TxnIntent × Option Value)
  read = read_intent_and_next_key codec req.shard_id (user_key_of write) engine

  -- Where the shard stays and the key has no intent of another transaction, `write_intent` needs one round
  -- of the loop, and writes on what it read; if the intent of this transaction is there already it writes
  -- nothing.
  write_intent-settled :
      Settled req.start_version read
      → write_intent codec resolve (suc fuel) exec_ctx engine req
        ≡ some (do
          r ← settled engine read
          write_on codec engine req.shard_id req.start_version r.0.1 r.0.0 write)
  unfolding write_intent forward_or
  write_intent-settled h =
      rw
        (
          write_intent,
          given,
          stays,
          read_first-settled codec resolve req.shard_id (user_key_of write) req.start_version fuel
              engine h,
        )
        (go read)
    where
      go :
          (r : Result (Option TxnIntent × Option Value))
          → some (after_read codec req.shard_id req.start_version write (settled engine r))
            ≡ some (do
              x ← settled engine r
              write_on codec engine req.shard_id req.start_version x.0.1 x.0.0 write)
      go (err e) = refl
      go (ok (none, v)) = refl
      go (ok (some i, v)) = refl
