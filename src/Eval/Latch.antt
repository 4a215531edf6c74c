-- ===== src/Eval/Latch.antt =====
-- server/src/replica/eval/latch.rs, `mod remote`: the row latch of one key. A `LatchBlock` stands under
-- the key's `ShardKey` in `LatchManagerCore::latches`, or is missing there. A request is named by a
-- number; a waiter's sender by the number of the request that holds the receiver, and `alive` says
-- whether that receiver is still there when the guard is sent to it.
pub mod Exclusion
pub mod Keys
pub mod Resolve
use sekv.Prelude.{ℕ, Bool, true, false, Option, none, some, List, [], ◌∷◌, ◌++◌, if◌then◌else◌}

pub record LatchBlock : Type 0 where
  pub hold : Bool
  pub latch_waiters : List ℕ
  pub intent_waiters : List ℕ

-- `or_insert_with(default_latch_block)`
abbrev pub get_latch_mut : Option LatchBlock → LatchBlock
get_latch_mut none = record { hold = false; latch_waiters = []; intent_waiters = [] }
get_latch_mut (some block) = block

-- The block after `acquire_internal`, and whether the request got the guard; otherwise it waits.
unfoldable pub acquire_internal : ℕ → Option LatchBlock → Bool × LatchBlock
acquire_internal request entry =
    let latch = get_latch_mut entry in
    if latch.hold
    then (false, record latch { latch_waiters = latch.latch_waiters ++ request ∷ [] })
    else (true, record latch { hold = true })

abbrev no_senders : List ℕ → Bool
no_senders [] = true
no_senders (s ∷ senders) = false

-- What `transfer_latch_guard` does: the request that the guard went to, the block that it leaves, and
-- whether the block can be removed.
pub record Transfer : Type 0 where
  pub receiver : Option ℕ
  pub block : LatchBlock
  pub removable : Bool

-- the `while let Some(sender) = latch_block.latch_waiters.pop_front()` loop
unfoldable pub transfer_to : (ℕ → Bool) → List ℕ → List ℕ → Transfer
transfer_to alive intent_waiters [] = record {
  receiver = none;
  block = record { hold = false; latch_waiters = []; intent_waiters = intent_waiters };
  removable = no_senders intent_waiters;
}
transfer_to alive intent_waiters (sender ∷ waiters) =
    let rest = transfer_to alive intent_waiters waiters in
    if alive sender
    then record {
      receiver = some sender;
      block = record { hold = true; latch_waiters = waiters; intent_waiters = intent_waiters };
      removable = false;
    }
    else rest

unfoldable pub transfer_latch_guard : (ℕ → Bool) → LatchBlock → Transfer
unfolding transfer_to
transfer_latch_guard alive block = transfer_to alive block.intent_waiters block.latch_waiters

-- The `remove_if_mut` of `release`, which the drop of a guard calls: where the guard went, and the entry
-- that it leaves.
unfoldable pub release : (ℕ → Bool) → Option LatchBlock → Option ℕ × Option LatchBlock
release alive none = (none, none)
release alive (some block) =
    let t = transfer_latch_guard alive block in
    (t.receiver, if t.removable then none else some t.block)

-- The part of `resolve_txn` that waits for the intent of a running transaction: the guard goes to the next
-- waiter.
unfoldable pub wait_intent : (ℕ → Bool) → ℕ → Option LatchBlock → Option ℕ × LatchBlock
wait_intent alive request entry =
    let latch = get_latch_mut entry in
    let t =
      transfer_latch_guard alive
        (record latch { intent_waiters = latch.intent_waiters ++ request ∷ [] }) in
    (t.receiver, t.block)

-- `signal_all`: the waiters that were signalled, and the entry that it leaves.
unfoldable pub signal_all : Option LatchBlock → List ℕ × Option LatchBlock
signal_all none = ([], none)
signal_all (some block) = (block.intent_waiters, some (record block { intent_waiters = [] }))
