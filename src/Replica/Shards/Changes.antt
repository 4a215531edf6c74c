-- ===== src/Replica/Shards/Changes.antt =====
-- What a split and a merge of a group's shards leave: `apply_split_shard` and `apply_merge_shard` of
-- server/src/replica/fsm/mod.rs.
use sekv.Prelude.{
  ℕ, ◌+◌, ◌==◌, ◌≡◌, ◌≢◌, refl, ◌∙◌, ◌||◌, true, false, some, arith, Ordering, ==_iff,
}
use sekv.Prelude.Bytes.{Bytes, cmp, lt_bytes, le_bytes, is_empty, eq_bytes_iff}
use sekv.Api.{ShardDesc, RangePartition}
use sekv.Api.Group.{GroupDesc, find_shard, drop_shard, with_range, apply_shard_delta}
use sekv.Schema.Shard.{belong_to, in_range}
use sekv.Result.{ok}
use sekv.Replica.Shards.{
  SplitShard, MergeShard, split_shards, apply_split_shard, merged_shards, apply_merge_shard,
}
use sekv.Replica.Shards.Ranges.{count, count_and, in_range_cut, in_range_empty}
use sekv.Replica.Shards.Owners.{
  owns, owners, owners-append, owners-split, owns_range, IsUnique, find_shard-drop_shard,
  drop_shard-IsUnique, owners-drop_shard,
}

-- A split by a key inside the shard's range leaves as many shards that hold a key as there were, for each key of
-- each table, and counts in the epoch. The shard is there and has a range, which holds the split key and does not
-- start with it.
pub apply_split_shard-owners :
    (split : SplitShard) (group : GroupDesc) (old : ShardDesc) (range : RangePartition)
    → find_shard split.old_shard_id group.shards ≡ some old
    → old.range ≡ some range
    → belong_to old split.split_key ≡ true
    → split.split_key ≢ range.start
    → (after : GroupDesc) × (apply_split_shard split group ≡ ok after)
      × (after.epoch ≡ apply_shard_delta group.epoch)
      × ((table_id : ℕ) (key : Bytes)
          → owners table_id key after.shards ≡ owners table_id key group.shards)
unfolding apply_split_shard
apply_split_shard-owners split group old range f e b n = (
  record group {
    shards = split_shards split old range group.shards;
    epoch = apply_shard_delta group.epoch;
  },
  simp (f, b, e),
  refl,
  λ table_id key. owners-split table_id key split old range group.shards f e b n,
)

-- Two shards of a group to merge.
pub record Mergeable (merge : MergeShard) (group : GroupDesc) (left right : ShardDesc)
    (left_range right_range : RangePartition) : Type 0 where
  pub unique : IsUnique group.shards
  pub apart : merge.right_shard_id ≢ merge.left_shard_id
  pub found_left : find_shard merge.left_shard_id group.shards ≡ some left
  pub found_right : find_shard merge.right_shard_id group.shards ≡ some right
  pub one_table : left.table_id ≡ right.table_id
  pub ranged_left : left.range ≡ some left_range
  pub ranged_right : right.range ≡ some right_range
  pub meet : left_range.end ≡ right_range.start

module _ (merge : MergeShard) (group : GroupDesc) (left right : ShardDesc)
    (left_range right_range : RangePartition)
    (m : Mergeable merge group left right left_range right_range) where
  abbrev merged : ShardDesc
  merged = with_range left.id left.table_id left_range.start right_range.end

  abbrev after_merge : GroupDesc
  after_merge = record group {
    shards = merged_shards merge left left_range right_range group.shards;
    epoch = apply_shard_delta group.epoch;
  }

  apply_merge_shard-ok : apply_merge_shard merge group ≡ ok after_merge
  unfolding apply_merge_shard
  apply_merge_shard-ok =
      rw
        (
          m.found_left,
          m.found_right,
          (==_iff left.table_id right.table_id).1 m.one_table,
          m.ranged_left,
          m.ranged_right,
          (eq_bytes_iff left_range.end right_range.start).1 m.meet,
        )
        refl

  owners-merged :
      (table_id : ℕ) (key : Bytes)
      → owners table_id key after_merge.shards
          + (count (owns table_id key left) + count (owns table_id key right))
        ≡ owners table_id key group.shards + count (owns table_id key merged)
  owners-merged table_id key =
      let without_left = drop_shard merge.left_shard_id group.shards in
      let found : find_shard merge.right_shard_id without_left ≡ some right =
        find_shard-drop_shard merge.right_shard_id merge.left_shard_id group.shards m.apart
        ∙ m.found_right in
      omega (
        arith,
        owners-append table_id key (drop_shard merge.right_shard_id without_left) merged,
        owners-drop_shard table_id key merge.left_shard_id group.shards left m.unique m.found_left,
        owners-drop_shard table_id key merge.right_shard_id without_left right
            (drop_shard-IsUnique merge.left_shard_id group.shards m.unique) found,
      )

  -- Two shards that meet are merged to one: for each key of each table there are as many shards that hold it as
  -- before, where the left range has an end that lies behind its start and ahead of the right range's end.
  pub apply_merge_shard-owners :
      cmp left_range.start left_range.end ≡ Ordering.lt
      → (lt_bytes left_range.end right_range.end || is_empty right_range.end) ≡ true
      → (after : GroupDesc) × (apply_merge_shard merge group ≡ ok after)
        × (after.epoch ≡ apply_shard_delta group.epoch)
        × ((table_id : ℕ) (key : Bytes)
            → owners table_id key after.shards ≡ owners table_id key group.shards)
  unfolding with_range belong_to
  apply_merge_shard-owners before behind = (
    after_merge,
    apply_merge_shard-ok,
    refl,
    λ table_id key. omega (arith, owners-merged table_id key, cut table_id key),
  )
    where
      cut :
          (table_id : ℕ) (key : Bytes)
          → count (owns table_id key left) + count (owns table_id key right)
            ≡ count (owns table_id key merged)
      cut table_id key =
          rw
            (
              owns_range table_id key left left_range m.ranged_left,
              owns_range table_id key right right_range m.ranged_right,
              ← m.one_table,
              ← m.meet,
            )
            (count_and (left.table_id == table_id) (in_range left_range.start left_range.end key)
              (in_range left_range.end right_range.end key)
              (in_range left_range.start right_range.end key)
              (in_range_cut left_range.start left_range.end right_range.end key before behind))

  -- A merge is accepted whose right range has an end that does not lie behind the start of the left one, as where
  -- the left shard is the last of its table and the right one the first, since an end without a bound equals the
  -- start of the first range: every key of both shards then has one shard less that holds it.
  pub apply_merge_shard-loses :
      is_empty right_range.end ≡ false
      → le_bytes right_range.end left_range.start ≡ true
      → (after : GroupDesc) × (apply_merge_shard merge group ≡ ok after)
        × ((table_id : ℕ) (key : Bytes)
            → owners table_id key after.shards
                + (count (owns table_id key left) + count (owns table_id key right))
              ≡ owners table_id key group.shards)
  unfolding with_range belong_to
  apply_merge_shard-loses bounded behind = (
    after_merge,
    apply_merge_shard-ok,
    λ table_id key. omega (arith, owners-merged table_id key, empty table_id key),
  )
    where
      empty : (table_id : ℕ) (key : Bytes) → count (owns table_id key merged) ≡ 0
      empty table_id key =
          rw (in_range_empty left_range.start right_range.end key bounded behind) (ground (arith))
