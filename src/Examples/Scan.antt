-- ===== src/Examples/Scan.antt =====
-- Merged scans, and the keys that scans cover.
use sekv.Prelude.{ℕ, ◌≡◌, refl, true, false, some, [], ◌∷◌, arith}
use sekv.Prelude.Bytes.{Bytes, IsBytes, cmp, starts_with}
use sekv.Api.{ValueSet, ShardScanResponse}
use sekv.Schema.Shard.{in_range}
use sekv.Rock.Lexical.{lexical_next_boundary, pop_last, add_to_last}
use sekv.Rock.Lexical.Range.{in_range-lexical_next_boundary}
use sekv.Eval.Scan.{merge_scan_response}
use sekv.Eval.Scan.Merge.{IsOrdered, find, or_else, merge_scan_response-find}

abbrev set : ℕ → ℕ → ValueSet
set key version = record {
  user_key = key ∷ [];
  values = record { content = some (version ∷ []); version = version } ∷ [];
}

abbrev target : ShardScanResponse
target = record { data_sets = set 1 10 ∷ set 3 10 ∷ []; has_more = false }

abbrev source : ShardScanResponse
source = record { data_sets = set 2 5 ∷ set 3 5 ∷ []; has_more = false }

target-IsOrdered : IsOrdered target.data_sets
unfolding cmp
target-IsOrdered = ((refl, tt), (tt, tt))

merge_scan_response-find_example :
    ((key : Bytes)
      → find key (merge_scan_response target source).data_sets
        ≡ or_else (find key target.data_sets) (find key source.data_sets))
    × ((merge_scan_response target source).has_more ≡ false)
merge_scan_response-find_example = merge_scan_response-find target source target-IsOrdered refl

abbrev bytes : Bytes
bytes = 49 ∷ 255 ∷ []

abbrev key : Bytes
key = 49 ∷ 255 ∷ 7 ∷ []

bytes-IsBytes : IsBytes bytes
bytes-IsBytes = (omega arith, (omega arith, tt))

key-IsBytes : IsBytes key
key-IsBytes = (omega arith, (omega arith, (omega arith, tt)))

in_range-lexical_next_boundary_example : in_range bytes (lexical_next_boundary bytes) key ≡ true
unfolding starts_with
in_range-lexical_next_boundary_example =
    in_range-lexical_next_boundary bytes key bytes-IsBytes key-IsBytes

no_boundary : lexical_next_boundary (255 ∷ []) ≡ []
unfolding lexical_next_boundary pop_last add_to_last
no_boundary = refl

abbrev last : ValueSet
last = record { user_key = bytes; values = [] }

begins : starts_with key bytes ≡ true
unfolding starts_with
begins = refl
