-- ===== src/Examples/Latch.antt =====
-- Two requests take turns at a latch.
use sekv.Prelude.{◌≡◌, refl, true, none, some, [], ◌∷◌, ◌==◌, not}
use sekv.Eval.Latch.{acquire_internal, release}
use sekv.Eval.Latch.Exclusion.{
  World, acquires, Reachable, start, step, Agrees, latch-Agrees, release-first,
}
use sekv.Prelude.{◌↔◌, false}
use sekv.Api.{put_none}
use sekv.Eval.Latch.Keys.{Request, write, acquire_row_latches}
use sekv.Eval.Latch.Keys.Distinct.{WritesOnce, acquire_row_latches_iff}

abbrev idle : World
idle = record { entry = none; holders = [] }

abbrev held : World
held = record {
  entry = some (record { hold = true; latch_waiters = []; intent_waiters = [] });
  holders = 1 ∷ [];
}

abbrev waited_for : World
waited_for = record {
  entry = some (record { hold = true; latch_waiters = 2 ∷ []; intent_waiters = [] });
  holders = 1 ∷ [];
}

held-Reachable : Reachable waited_for
unfolding acquire_internal
held-Reachable = step held waited_for (step idle held start (acquires idle 1)) (acquires held 2)

latch-Agrees_example : Agrees waited_for.entry waited_for.holders
latch-Agrees_example = latch-Agrees waited_for held-Reachable

-- The receiver of request 2 is gone.
release-first_example :
    release
      (λ s. not (s == 2))
      (some (record { hold = true; latch_waiters = 2 ∷ 3 ∷ 4 ∷ []; intent_waiters = [] }))
    ≡ (some 3, some (record { hold = true; latch_waiters = 4 ∷ []; intent_waiters = [] }))
release-first_example =
    release-first (λ s. not (s == 2)) true (2 ∷ []) (4 ∷ []) [] 3 (refl, tt) refl

-- A batch that deletes a key and puts it again.
abbrev delete_and_put : Request
delete_and_put = write (record {
  shard_id = 1;
  deletes = record { key = 1 ∷ []; conditions = []; take_prev_value = false } ∷ [];
  puts =
      record {
        put_type = put_none;
        ttl = 0;
        key = 1 ∷ [];
        value = [];
        conditions = [];
        take_prev_value = false;
      }
      ∷ [];
})

acquire_row_latches_iff_example :
    ((acquire_row_latches 1 delete_and_put (λ key. none)).0 ≡ true) ↔ WritesOnce delete_and_put
acquire_row_latches_iff_example =
    acquire_row_latches_iff 1 delete_and_put (λ key. none) (λ key. refl)
