-- ===== src/Replica/Shards/Ranges.antt =====
-- The key ranges that a shard is cut into and put together from: schema/src/shard.rs, `in_range`.
use sekv.Prelude.{
  ℕ, ◌+◌, ◌≡◌, ◌≢◌, refl, sym, ◌&&◌, ◌||◌, Bool, true, false, [], ◌∷◌, arith, Ordering,
  Ordering-cases, inl, inr,
}
use sekv.Prelude.Bytes.{
  Bytes, cmp, lt_bytes, le_bytes, is_empty, cmp_refl, cmp_flip, cmp_trans, eq_of_cmp,
}
use sekv.Schema.Shard.{in_range}

abbrev pub count : Bool → ℕ
count true = 1
count false = 0

nonempty_of_lt : (a b : Bytes) → cmp a b ≡ Ordering.lt → is_empty b ≡ false
unfolding cmp
nonempty_of_lt [] [] h = cc
nonempty_of_lt (x ∷ xs) [] h = cc
nonempty_of_lt a (y ∷ ys) h = refl

module _ (start middle end key : Bytes) (before : cmp start middle ≡ Ordering.lt) where
  -- A key of a range is on one side of a bound inside it.
  pub in_range_cut :
      (lt_bytes middle end || is_empty end) ≡ true
      → count (in_range start middle key) + count (in_range middle end key)
        ≡ count (in_range start end key)
  unfolding in_range
  in_range_cut h = elim (Ordering-cases (cmp key middle)) [
    | inl below ↦
        ground (arith, nonempty_of_lt start middle, cmp_trans key middle end, cmp_flip key middle)
    | inr (inl same) ↦
        ground (arith, nonempty_of_lt start middle, eq_of_cmp key middle, cmp_refl middle)
    | inr (inr above) ↦
        ground (arith, nonempty_of_lt start middle, cmp_trans start middle key, cmp_flip middle key)
  ]

-- A key of a range that it does not start with lies inside it.
pub in_range_inside :
    (start middle end : Bytes)
    → in_range start end middle ≡ true
    → middle ≢ start
    → (cmp start middle ≡ Ordering.lt) × ((lt_bytes middle end || is_empty end) ≡ true)
unfolding in_range
in_range_inside start middle end h n = elim (Ordering-cases (cmp start middle)) [
  | inl below ↦ (below, ground (arith))
  | inr (inl same) ↦ absurd (n (sym (eq_of_cmp start middle same)))
  | inr (inr above) ↦ absurd (ground (arith))
]

pub count_and :
    (a x y z : Bool)
    → count x + count y ≡ count z
    → count (a && x) + count (a && y) ≡ count (a && z)
count_and true x y z h = h
count_and false x y z h = omega arith

-- A range that ends where or before it starts holds no key.
pub in_range_empty :
    (start end key : Bytes)
    → is_empty end ≡ false
    → le_bytes end start ≡ true
    → in_range start end key ≡ false
unfolding in_range
in_range_empty start end key n h = elim (Ordering-cases (cmp end start)) [
  | inl below ↦ ground (
    arith,
    cmp_trans key end start,
    cmp_flip key start,
    cmp_flip start key,
    cmp_trans end start key,
    cmp_flip end key,
    cmp_flip key end,
    eq_of_cmp start key,
  )
  | inr (inl same) ↦ ground (arith, eq_of_cmp end start, cmp_flip key start, cmp_flip start key)
  | inr (inr above) ↦ absurd (ground (arith))
]
