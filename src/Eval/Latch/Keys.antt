-- ===== src/Eval/Latch/Keys.antt =====
-- `acquire_row_latches` of server/src/replica/eval/latch.rs: the latches of all keys that a request
-- writes, one after the other.
pub mod Distinct
use sekv.Prelude.{ℕ, Bool, true, false, Option, none, some, List, [], ◌∷◌, ◌++◌, map, if◌then◌else◌}
use sekv.Prelude.Bytes.{Bytes, eq_bytes, le_bytes}
use sekv.Api.{
  PutRequest, DeleteRequest, user_key_of, ShardWriteRequest, WriteIntentRequest,
  CommitIntentRequest, ClearIntentRequest,
}
use sekv.Eval.Latch.{LatchBlock, acquire_internal}

-- The requests of a group; those that need no latch are one.
pub data Request : Type 0 where
  write : ShardWriteRequest → Request
  write_intent : WriteIntentRequest → Request
  commit_intent : CommitIntentRequest → Request
  clear_intent : ClearIntentRequest → Request
  unlatched : Request

unfoldable pub collect_shard_write_keys : ShardWriteRequest → List Bytes
collect_shard_write_keys req =
    map (λ p. PutRequest.key p) req.puts ++ map (λ d. DeleteRequest.key d) req.deletes

-- the `match request`, before the keys are sorted
unfoldable pub latch_keys : Request → List Bytes
unfolding collect_shard_write_keys user_key_of
latch_keys (write req) = collect_shard_write_keys req
latch_keys (write_intent req) = elim req.write [ none ↦ [] | some w ↦ user_key_of w ∷ [] ]
latch_keys (commit_intent req) = req.user_key ∷ []
latch_keys (clear_intent req) = req.user_key ∷ []
latch_keys unlatched = []

-- `keys.sort_unstable()`
abbrev pub insert : Bytes → List Bytes → List Bytes
insert key [] = key ∷ []
insert key (k ∷ keys) =
    let rest = insert key keys in if le_bytes key k then key ∷ k ∷ keys else k ∷ rest

abbrev pub sort : List Bytes → List Bytes
sort [] = []
sort (k ∷ keys) = insert k (sort keys)

-- the entries of one shard in `LatchManagerCore::latches`
abbrev pub Latches : Type 0
Latches = Bytes → Option LatchBlock

abbrev pub set_latch : Latches → Bytes → LatchBlock → Latches
set_latch latches key block = λ k. if eq_bytes k key then some block else latches k

-- The loop of `acquire`: whether the request has all latches, or waits for one.
unfoldable pub acquire_keys : ℕ → List Bytes → Latches → Bool × Latches
unfolding acquire_internal
acquire_keys request [] latches = (true, latches)
acquire_keys request (key ∷ keys) latches =
    let (acquired, block) = acquire_internal request (latches key) in
    let rest = acquire_keys request keys (set_latch latches key block) in
    if acquired then rest else (false, set_latch latches key block)

unfoldable pub acquire_row_latches : ℕ → Request → Latches → Bool × Latches
unfolding latch_keys acquire_keys
acquire_row_latches id request latches = acquire_keys id (sort (latch_keys request)) latches
