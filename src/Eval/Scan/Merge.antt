-- ===== src/Eval/Scan/Merge.antt =====
-- The merged scan of a moving shard as a map from user keys to value sets.
use sekv.Prelude.{
  ◌≡◌, refl, Bool, inl, inr, true, false, Option, none, some, List, [], ◌∷◌, arith, All,
  if◌then◌else◌,
}
use Prim.Native.Nat.Ordering.{lt, eq, gt}
use sekv.Prelude.{Ordering-cases}
use sekv.Prelude.Bytes.{
  Bytes, cmp, cmp_refl, cmp_flip, cmp_trans, eq_of_cmp, eq_bytes, eq_bytes_iff,
}
use sekv.Api.{ValueSet, ShardScanResponse}
use sekv.Eval.Scan.{merge, merge_scan_response}

abbrev pub find : Bytes → List ValueSet → Option ValueSet
find key [] = none
find key (x ∷ sets) = let rest = find key sets in if eq_bytes key x.user_key then some x else rest

abbrev pub or_else : Option ValueSet → Option ValueSet → Option ValueSet
or_else none other = other
or_else (some x) other = some x

-- A scan yields value sets in the order of their keys, one for each key.
abbrev pub IsOrdered : List ValueSet → Type 0
IsOrdered [] = Unit
IsOrdered (x ∷ sets) = All (λ s. cmp x.user_key s.user_key ≡ lt) sets × IsOrdered sets

find-ahead :
    (key : Bytes) (sets : List ValueSet)
    → All (λ s. cmp key s.user_key ≡ lt) sets
    → find key sets ≡ none
find-ahead key [] h = refl
find-ahead key (x ∷ sets) h =
    ground (arith, eq_bytes_iff key x.user_key, cmp_refl key, find-ahead key sets h.1)

All-ahead :
    (a b : Bytes) (sets : List ValueSet)
    → cmp a b ≡ lt
    → All (λ s. cmp b s.user_key ≡ lt) sets
    → All (λ s. cmp a s.user_key ≡ lt) sets
All-ahead a b [] h k = tt
All-ahead a b (x ∷ sets) h k = (cmp_trans a b x.user_key h k.0, All-ahead a b sets h k.1)

find-merge :
    (key : Bytes) (target source : List ValueSet)
    → IsOrdered target
    → find key (merge false target source) ≡ or_else (find key target) (find key source)
unfolding merge
find-merge key [] [] h = refl
find-merge key [] (y ∷ source) h = ground (arith, find-merge key [] source h)
find-merge key (x ∷ target) [] h = ground (arith, find-merge key target [] h.1)
find-merge key (x ∷ target) (y ∷ source) h = elim (Ordering-cases (cmp x.user_key y.user_key)) [
  | inl p ↦ ground (arith, find-merge key target (y ∷ source) h.1)
  | inr (inl p) ↦
      let same : x.user_key ≡ y.user_key = eq_of_cmp x.user_key y.user_key p in
      ground (arith, find-merge key target source h.1)
  | inr (inr p) ↦
      let ahead : cmp y.user_key x.user_key ≡ lt = (cmp_flip y.user_key x.user_key).1 p in
      ground (
        arith,
        find-merge key (x ∷ target) source h,
        eq_bytes_iff key y.user_key,
        find-ahead y.user_key (x ∷ target)
            (ahead, All-ahead y.user_key x.user_key target ahead h.0),
      )
]

merge-All {κ} :
    (P : ValueSet → Type κ) (more : Bool) (target source : List ValueSet)
    → All P target
    → All P source
    → All P (merge more target source)
unfolding merge
merge-All P more [] [] h k = tt
merge-All P true [] (y ∷ source) h k = tt
merge-All P false [] (y ∷ source) h k = (k.0, merge-All P false [] source h k.1)
merge-All P more (x ∷ target) [] h k = (h.0, merge-All P more target [] h.1 k)
merge-All P more (x ∷ target) (y ∷ source) h k =
    elim (cmp x.user_key y.user_key)
      as (λ o. All P (elim o [
        | lt ↦ x ∷ merge more target (y ∷ source)
        | eq ↦ x ∷ merge more target source
        | gt ↦ y ∷ merge more (x ∷ target) source
      ])) [
        | lt ↦ (h.0, merge-All P more target (y ∷ source) h.1 k)
        | eq ↦ (h.0, merge-All P more target source h.1 k.1)
        | gt ↦ (k.0, merge-All P more (x ∷ target) source h k.1)
      ]

module _ (more : Bool) (x y : ValueSet) (target source : List ValueSet) where
  merge-lt :
      cmp x.user_key y.user_key ≡ lt
      → merge more (x ∷ target) (y ∷ source) ≡ x ∷ merge more target (y ∷ source)
  unfolding merge
  merge-lt p = rw (merge, p) refl

  merge-eq :
      cmp x.user_key y.user_key ≡ eq
      → merge more (x ∷ target) (y ∷ source) ≡ x ∷ merge more target source
  unfolding merge
  merge-eq p = rw (merge, p) refl

  merge-gt :
      cmp x.user_key y.user_key ≡ gt
      → merge more (x ∷ target) (y ∷ source) ≡ y ∷ merge more (x ∷ target) source
  unfolding merge
  merge-gt p = rw (merge, p) refl

merge-IsOrdered :
    (more : Bool) (target source : List ValueSet)
    → IsOrdered target
    → IsOrdered source
    → IsOrdered (merge more target source)
unfolding merge
merge-IsOrdered more [] [] h k = tt
merge-IsOrdered true [] (y ∷ source) h k = tt
merge-IsOrdered false [] (y ∷ source) h k =
    (merge-All _ false [] source tt k.0, merge-IsOrdered false [] source h k.1)
merge-IsOrdered more (x ∷ target) [] h k =
    (merge-All _ more target [] h.0 tt, merge-IsOrdered more target [] h.1 k)
merge-IsOrdered more (x ∷ target) (y ∷ source) h k =
    elim (Ordering-cases (cmp x.user_key y.user_key)) [
      | inl p ↦ rw (merge-lt more x y target source p) (
        merge-All _ more target (y ∷ source) h.0 (p, All-ahead x.user_key y.user_key source p k.0),
        merge-IsOrdered more target (y ∷ source) h.1 k,
      )
      | inr (inl p) ↦
          let same : x.user_key ≡ y.user_key = eq_of_cmp x.user_key y.user_key p in
          rw (merge-eq more x y target source p) (
            merge-All _ more target source h.0 (rw same k.0),
            merge-IsOrdered more target source h.1 k.1,
          )
      | inr (inr p) ↦
          let ahead : cmp y.user_key x.user_key ≡ lt = (cmp_flip y.user_key x.user_key).1 p in
          rw (merge-gt more x y target source p) (
            merge-All _ more (x ∷ target) source
                (ahead, All-ahead y.user_key x.user_key target ahead h.0) k.0,
            merge-IsOrdered more (x ∷ target) source h k.1,
          )
    ]

-- Where the target's scan is complete, the merged scan has the value set of the target for each key that the
-- target has, that of the source for each other key, and no others; it has more exactly where the source has.
-- The target's value sets come in the order of their keys.
pub merge_scan_response-find :
    (target source : ShardScanResponse)
    → IsOrdered target.data_sets
    → target.has_more ≡ false
    → ((key : Bytes)
        → find key (merge_scan_response target source).data_sets
          ≡ or_else (find key target.data_sets) (find key source.data_sets))
      × ((merge_scan_response target source).has_more ≡ source.has_more)
unfolding merge_scan_response
merge_scan_response-find target source h m =
    (λ key. rw m (find-merge key target.data_sets source.data_sets h), rw m refl)

-- The merge of two scans in the order of their keys is in that order, with one value set for each key.
merge_scan_response-IsOrdered :
    (target source : ShardScanResponse)
    → IsOrdered target.data_sets
    → IsOrdered source.data_sets
    → IsOrdered (merge_scan_response target source).data_sets
unfolding merge_scan_response
merge_scan_response-IsOrdered target source =
    merge-IsOrdered target.has_more target.data_sets source.data_sets
