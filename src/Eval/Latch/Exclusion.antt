-- ===== src/Eval/Latch/Exclusion.antt =====
-- The latch of a key, run by the requests that acquire it, drop its guard and wait for intents.
use sekv.Prelude.{
  ℕ, ◌≡◌, refl, ◌≢◌, Bool, Bool-cases, inl, inr, true, false, Option, none, some, List, [], ◌∷◌,
  ◌++◌, All, if◌then◌else◌,
}
use sekv.Eval.Latch.{
  LatchBlock, get_latch_mut, acquire_internal, transfer_to, transfer_latch_guard, release,
  wait_intent, signal_all,
}

-- The entry of the key, and the requests that have a guard of it with `hold` set.
pub record World : Type 0 where
  pub entry : Option LatchBlock
  pub holders : List ℕ

abbrev with_receiver : Option ℕ → List ℕ → List ℕ
with_receiver none holders = holders
with_receiver (some request) holders = request ∷ holders

abbrev after_acquire : ℕ → List ℕ → Bool × LatchBlock → World
after_acquire request holders r = record {
  entry = some r.1;
  holders = if r.0 then request ∷ holders else holders;
}

-- One atomic step on the entry. A guard is dropped, and an intent waited for, by a request that has one.
pub data Step : World → World → Type 0 where
  acquires :
      (w : World) (request : ℕ)
      → Step w (after_acquire request w.holders (acquire_internal request w.entry))
  drops :
      (alive : ℕ → Bool) (entry : Option LatchBlock) (before after : List ℕ) (request : ℕ)
      → Step
          (record { entry = entry; holders = before ++ request ∷ after })
          (record {
            entry = (release alive entry).1;
            holders = with_receiver (release alive entry).0 (before ++ after);
          })
  waits :
      (alive : ℕ → Bool) (entry : Option LatchBlock) (before after : List ℕ) (request : ℕ)
      → Step
          (record { entry = entry; holders = before ++ request ∷ after })
          (record {
            entry = some (wait_intent alive request entry).1;
            holders = with_receiver (wait_intent alive request entry).0 (before ++ after);
          })
  signals : (w : World) → Step w (record { entry = (signal_all w.entry).1; holders = w.holders })

pub data Reachable : World → Type 0 where
  start : Reachable (record { entry = none; holders = [] })
  step : (v w : World) → Reachable v → Step v w → Reachable w

-- The block agrees with the guards: one guard where it is held, and neither a guard nor a waiter where it is
-- not.
abbrev pub BlockAgrees : LatchBlock → List ℕ → Type 0
BlockAgrees block holders = elim block.hold [
  | true ↦ (request : ℕ) × (holders ≡ request ∷ [])
  | false ↦ (holders ≡ []) × (block.latch_waiters ≡ [])
]

abbrev pub Agrees : Option LatchBlock → List ℕ → Type 0
Agrees none holders = holders ≡ []
Agrees (some block) holders = BlockAgrees block holders

acquire-BlockAgrees :
    (request : ℕ) (hold : Bool) (waiters intents holders : List ℕ)
    → BlockAgrees
        (record { hold = hold; latch_waiters = waiters; intent_waiters = intents })
        holders
    → let w = after_acquire request holders (
        acquire_internal request
          (some (record { hold = hold; latch_waiters = waiters; intent_waiters = intents }))) in
      Agrees w.entry w.holders
unfolding acquire_internal
acquire-BlockAgrees request true waiters intents holders h = h
acquire-BlockAgrees request false waiters intents holders h = (request, rw h.0 refl)

acquire_internal-Agrees :
    (request : ℕ) (entry : Option LatchBlock) (holders : List ℕ)
    → Agrees entry holders
    → let w = after_acquire request holders (acquire_internal request entry) in
      Agrees w.entry w.holders
unfolding acquire_internal
acquire_internal-Agrees request none holders h = (request, rw h refl)
acquire_internal-Agrees request (some block) holders h =
    acquire-BlockAgrees request block.hold block.latch_waiters block.intent_waiters holders h

-- What a transfer leaves, whether the block stays or goes.
transfer_to-Agrees :
    (alive : ℕ → Bool) (intents waiters : List ℕ)
    → let t = transfer_to alive intents waiters in
      BlockAgrees t.block (with_receiver t.receiver [])
      × Agrees (if t.removable then none else some t.block) (with_receiver t.receiver [])
unfolding transfer_to
transfer_to-Agrees alive [] [] = ((refl, refl), refl)
transfer_to-Agrees alive (i ∷ intents) [] = ((refl, refl), (refl, refl))
transfer_to-Agrees alive intents (s ∷ waiters) = elim (Bool-cases (alive s)) [
  | inl e ↦ rw e ((s, refl), (s, refl))
  | inr e ↦ rw e (transfer_to-Agrees alive intents waiters)
]

-- The guard that is given up is the only one.
only_holder :
    (before after : List ℕ) (request other : ℕ)
    → before ++ request ∷ after ≡ other ∷ []
    → before ++ after ≡ []
only_holder [] after request other h = cc
only_holder (b ∷ []) after request other h = cc
only_holder (b ∷ c ∷ before) after request other h = cc

no_holder : (before after : List ℕ) (request : ℕ) → before ++ request ∷ after ≢ []
no_holder [] after request = λ h. cc
no_holder (b ∷ before) after request = λ h. cc

alone :
    (entry : Option LatchBlock) (before after : List ℕ) (request : ℕ)
    → Agrees entry (before ++ request ∷ after)
    → before ++ after ≡ []
alone none before after request h = absurd (no_holder before after request h)
alone (some block) before after request h = go block.hold h
  where
    go :
        (hold : Bool)
        → (elim hold as (λ _. Type 0) [
          | true ↦ (r : ℕ) × (before ++ request ∷ after ≡ r ∷ [])
          | false ↦ (before ++ request ∷ after ≡ []) × (block.latch_waiters ≡ [])
        ])
        → before ++ after ≡ []
    go true (r, e) = only_holder before after request r e
    go false (e, w) = absurd (no_holder before after request e)

signal_all-Agrees :
    (entry : Option LatchBlock) (holders : List ℕ)
    → Agrees entry holders
    → Agrees (signal_all entry).1 holders
unfolding signal_all
signal_all-Agrees none holders h = h
signal_all-Agrees (some block) holders h = h

step-Agrees : (v w : World) → Agrees v.entry v.holders → Step v w → Agrees w.entry w.holders
unfolding release wait_intent transfer_latch_guard signal_all
step-Agrees _ _ h (acquires w request) = acquire_internal-Agrees request w.entry w.holders h
step-Agrees _ _ h (drops alive none before after request) =
    absurd (no_holder before after request h)
step-Agrees _ _ h (drops alive (some block) before after request) =
    rw (alone (some block) before after request h)
      (transfer_to-Agrees alive block.intent_waiters block.latch_waiters).1
step-Agrees _ _ h (waits alive entry before after request) =
    rw (alone entry before after request h)
      (transfer_to-Agrees alive ((get_latch_mut entry).intent_waiters ++ request ∷ [])
        (get_latch_mut entry).latch_waiters).0
step-Agrees _ _ h (signals w) = signal_all-Agrees w.entry w.holders h

-- However requests acquire the latch of a key, drop its guards, wait for intents and signal them, and
-- whichever receivers are gone: at most one request has a guard, the block is held exactly where one has, and
-- no request waits for a latch that is not held.
pub latch-Agrees : (w : World) → Reachable w → Agrees w.entry w.holders
latch-Agrees _ start = refl
latch-Agrees _ (step v w r s) = step-Agrees v w (latch-Agrees v r) s

-- The drop of a guard hands the latch to the first waiter whose receiver is still there: those before it are
-- dropped, those behind it wait on, and the block stays held.
pub release-first :
    (alive : ℕ → Bool) (hold : Bool) (gone rest intents : List ℕ) (request : ℕ)
    → All (λ s. alive s ≡ false) gone
    → alive request ≡ true
    → release alive (
        some (record {
          hold = hold;
          latch_waiters = gone ++ request ∷ rest;
          intent_waiters = intents;
        }))
      ≡ (
        some request,
        some (record { hold = true; latch_waiters = rest; intent_waiters = intents }),
      )
unfolding release transfer_latch_guard transfer_to
release-first alive hold [] rest intents request h a = rw a refl
release-first alive hold (g ∷ gone) rest intents request h a =
    rw (h.0) (release-first alive hold gone rest intents request h.1 a)
