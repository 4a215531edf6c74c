-- ===== src/Replica/Shards/Owners.antt =====
-- A split and a merge keep which keys a group's shards hold: server/src/replica/fsm/mod.rs.
use sekv.Prelude.{
  ℕ, ◌+◌, ◌==◌, ◌≡◌, ◌≢◌, refl, ◌&&◌, Bool, true, Option, none, some, List, [], ◌∷◌, ◌++◌, arith,
  Bool-cases, inl, inr,
}
use mathlib.Core.Path.{subst}
use sekv.Prelude.Bytes.{Bytes}
use sekv.Api.{ShardDesc, RangePartition}
use sekv.Api.Group.{find_shard, drop_shard, with_range}
use sekv.Schema.Shard.{belong_to, in_range}
use sekv.Replica.Shards.{SplitShard, set_range, split_shards}
use sekv.Replica.Shards.Ranges.{count, count_and, in_range_cut, in_range_inside}

-- How many of the shards hold the key of the table.
abbrev pub owns : ℕ → Bytes → ShardDesc → Bool
owns table_id key shard = shard.table_id == table_id && belong_to shard key

abbrev pub owners : ℕ → Bytes → List ShardDesc → ℕ
owners table_id key [] = 0
owners table_id key (shard ∷ shards) = count (owns table_id key shard) + owners table_id key shards

module _ (table_id : ℕ) (key : Bytes) where
  pub owners-append :
      (xs : List ShardDesc) (shard : ShardDesc)
      → owners table_id key (xs ++ (shard ∷ []))
        ≡ owners table_id key xs + count (owns table_id key shard)
  owners-append [] shard = omega arith
  owners-append (x ∷ xs) shard = omega (arith, owners-append xs shard)

  owners-set_range :
      (id : ℕ) (range : RangePartition) (shards : List ShardDesc) (old : ShardDesc)
      → find_shard id shards ≡ some old
      → owners table_id key (set_range id range shards) + count (owns table_id key old)
        ≡ owners table_id key shards + count (owns table_id key (record old { range = some range }))
  unfolding find_shard set_range
  owners-set_range id range [] old h = absurd (cc)
  owners-set_range id range (shard ∷ shards) old h = elim (Bool-cases (shard.id == id)) [
    | inl here ↦
        let h' : Path (Option ShardDesc) (some shard) (some old) = rw here at h in
        let e : shard ≡ old = cc in rw (here, ← e) (omega arith)
    | inr there ↦
        let h' : find_shard id shards ≡ some old = rw there at h in
        rw there (omega (arith, owners-set_range id range shards old h'))
  ]

  -- A shard with a range holds the keys of its table that are in the range.
  pub owns_range :
      (shard : ShardDesc) (range : RangePartition)
      → shard.range ≡ some range
      → owns table_id key shard ≡ (shard.table_id == table_id && in_range range.start range.end key)
  unfolding belong_to
  owns_range shard range e = rw (e, belong_to)

  pub owners-split :
      (split : SplitShard) (old : ShardDesc) (range : RangePartition) (shards : List ShardDesc)
      → find_shard split.old_shard_id shards ≡ some old
      → old.range ≡ some range
      → belong_to old split.split_key ≡ true
      → split.split_key ≢ range.start
      → owners table_id key (split_shards split old range shards) ≡ owners table_id key shards
  unfolding with_range belong_to
  owners-split split old range shards f e b n =
      let left = record old {
        range = some (record { start = range.start; end = split.split_key });
      } in
      let right = with_range split.new_shard_id old.table_id split.split_key range.end in
      let inside =
        in_range_inside range.start split.split_key range.end (rw (e, belong_to) at b) n in
      let cut : count (owns table_id key left) + count (owns table_id key right)
          ≡ count (owns table_id key old) =
        rw (owns_range old range e) (
          count_and (old.table_id == table_id) (in_range range.start split.split_key key)
            (in_range split.split_key range.end key) (in_range range.start range.end key)
            (in_range_cut range.start split.split_key range.end key inside.0 inside.1)) in
      omega (
        arith,
        owners-append
            (set_range split.old_shard_id (record { start = range.start; end = split.split_key })
              shards)
            right,
        owners-set_range split.old_shard_id (record { start = range.start; end = split.split_key })
            shards old f,
        cut,
      )

-- No id stands twice.
abbrev pub IsUnique : List ShardDesc → Type 0
IsUnique [] = Unit
IsUnique (shard ∷ shards) = (find_shard shard.id shards ≡ none) × IsUnique shards

drop_shard_absent :
    (id : ℕ) (shards : List ShardDesc) → find_shard id shards ≡ none → drop_shard id shards ≡ shards
unfolding find_shard drop_shard
drop_shard_absent id [] h = refl
drop_shard_absent id (shard ∷ shards) h = ground (arith, drop_shard_absent id shards)

pub find_shard-drop_shard :
    (id other : ℕ) (shards : List ShardDesc)
    → id ≢ other
    → find_shard id (drop_shard other shards) ≡ find_shard id shards
unfolding find_shard drop_shard
find_shard-drop_shard id other [] n = refl
find_shard-drop_shard id other (shard ∷ shards) n =
    ground (arith, find_shard-drop_shard id other shards)

find_shard-drop_absent :
    (id other : ℕ) (shards : List ShardDesc)
    → find_shard id shards ≡ none
    → find_shard id (drop_shard other shards) ≡ none
unfolding find_shard drop_shard
find_shard-drop_absent id other [] h = refl
find_shard-drop_absent id other (shard ∷ shards) h =
    ground (arith, find_shard-drop_absent id other shards)

pub drop_shard-IsUnique :
    (id : ℕ) (shards : List ShardDesc) → IsUnique shards → IsUnique (drop_shard id shards)
unfolding drop_shard
drop_shard-IsUnique id [] u = tt
drop_shard-IsUnique id (shard ∷ shards) u = elim (Bool-cases (shard.id == id)) [
  | inl same ↦ simp same (drop_shard-IsUnique id shards u.1)
  | inr other ↦
      simp other (find_shard-drop_absent shard.id id shards u.0, drop_shard-IsUnique id shards u.1)
]

module _ (table_id : ℕ) (key : Bytes) where
  pub owners-drop_shard :
      (id : ℕ) (shards : List ShardDesc) (old : ShardDesc)
      → IsUnique shards
      → find_shard id shards ≡ some old
      → owners table_id key (drop_shard id shards) + count (owns table_id key old)
        ≡ owners table_id key shards
  unfolding find_shard drop_shard
  owners-drop_shard id [] old u h = absurd (cc)
  owners-drop_shard id (shard ∷ shards) old u h = elim (Bool-cases (shard.id == id)) [
    | inl here ↦
        let h' : Path (Option ShardDesc) (some shard) (some old) = rw here at h in
        let e : shard ≡ old = cc in
        let id' : shard.id ≡ id = ground (arith) in
        let gone : drop_shard id shards ≡ shards =
          drop_shard_absent id shards (subst (λ i. find_shard i shards ≡ none) id' u.0) in
        simp (here, gone, ← e) (omega arith)
    | inr there ↦
        let h' : find_shard id shards ≡ some old = rw there at h in
        simp there (omega (arith, owners-drop_shard id shards old u.1 h'))
  ]
