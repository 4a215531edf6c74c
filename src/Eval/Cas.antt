-- ===== src/Eval/Cas.antt =====
-- server/src/replica/eval/cas.rs: the conditions of a write.
pub mod Laws
pub mod Meaning
use sekv.Prelude.{
  ℕ, zero, suc, ◌+◌, ◌-◌, ◌&&◌, Bool, true, false, Option, none, some, List, [], ◌∷◌, ltb, leb,
  ◌==◌, if◌then◌else◌, length, drop, get_elem?, not,
}
use sekv.Prelude.Bytes.{Bytes, eq_bytes, starts_with}
use sekv.Api.{
  Value, WriteCondition, WriteConditionType, expect_exists, expect_not_exists, expect_value,
  expect_version, expect_version_lt, expect_version_le, expect_version_gt, expect_version_ge,
  expect_starts_with, expect_ends_with, expect_slice, expect_contains,
}
use sekv.Result.{Result, ok, err, invalid_argument, ◌>>=◌, ok_or}

abbrev pub condition_types : List WriteConditionType
condition_types =
    expect_exists ∷ expect_not_exists ∷ expect_value ∷ expect_version ∷ expect_version_lt
    ∷ expect_version_le ∷ expect_version_gt ∷ expect_version_ge ∷ expect_starts_with
    ∷ expect_ends_with ∷ expect_slice ∷ expect_contains ∷ []

-- `WriteConditionType::from_i32`
abbrev pub from_i32 : ℕ → Option WriteConditionType
from_i32 n = get_elem? condition_types n

abbrev pub is_some {ℓ} : {A : Type ℓ} → Option A → Bool
is_some none = false
is_some (some a) = true

-- `a.ends_with(s)`
abbrev pub ends_with : Bytes → Bytes → Bool
ends_with a s = leb (length s) (length a) && eq_bytes (drop (length a - length s) a) s

-- `content.as_ref().map(test).unwrap_or_default()`
abbrev pub test_content : (Bytes → Bool) → Option Bytes → Bool
test_content test none = false
test_content test (some v) = test v

-- the `match` for a key that has a version; the last arm is `_ => Ok(true)`
unfoldable pub eval_value : WriteConditionType → WriteCondition → Value → Bool
unfolding eq_bytes starts_with
eval_value expect_not_exists cond value = if is_some value.content then false else true
eval_value expect_exists cond value = if is_some value.content then true else false
eval_value expect_value cond value = test_content (λ v. eq_bytes v cond.value) value.content
eval_value expect_version cond value = if value.version == cond.version then true else false
eval_value expect_version_lt cond value = if leb cond.version value.version then false else true
eval_value expect_version_le cond value = if ltb cond.version value.version then false else true
eval_value expect_version_gt cond value = if leb value.version cond.version then false else true
eval_value expect_version_ge cond value = if ltb value.version cond.version then false else true
eval_value expect_starts_with cond value =
    test_content (λ v. starts_with v cond.value) value.content
eval_value expect_ends_with cond value = test_content (λ v. ends_with v cond.value) value.content
eval_value expect_slice cond value =
    test_content (λ v. ltb cond.begin (length v) && starts_with (drop cond.begin v) cond.value)
      value.content
eval_value expect_contains cond value = true

-- the `match` for a key with no version
unfoldable pub eval_none : WriteConditionType → Bool
eval_none expect_not_exists = true
eval_none _ = false

unfoldable pub eval_condition : WriteCondition → Option Value → Result Bool
eval_condition cond value = do
  type ← ok_or (from_i32 cond.type) invalid_argument
  ok (elim value [ none ↦ eval_none type | some v ↦ eval_value type cond v ])

eval_from : ℕ → Option Value → List WriteCondition → Result (Option ℕ)
eval_from idx value [] = ok none
eval_from idx value (cond ∷ conditions) =
    let rest = eval_from (idx + 1) value conditions in
    do holds ← eval_condition cond value; if holds then rest else ok (some idx)

-- The index of the first condition that does not hold.
unfoldable pub eval_conditions : Option Value → List WriteCondition → Result (Option ℕ)
unfolding eval_from
eval_conditions value conditions = eval_from 0 value conditions
