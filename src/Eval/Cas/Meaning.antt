-- ===== src/Eval/Cas/Meaning.antt =====
-- Each condition of a write against what it means.
use sekv.Prelude.{
  ℕ, ◌+◌, ◌-◌, ◌&&◌, ◌≤◌, ◌<◌, ◌≡◌, ◌≢◌, refl, sym, ◌↔◌, ap, Bool, true, false, Option, none, some,
  ◌++◌, take, arith, if◌then◌else◌, length, drop, ltb, take-append-drop, drop_append_left,
  length-append, length-drop,
}
use sekv.Prelude.Bytes.{Bytes, eq_bytes_iff, starts_with, starts_with→append, starts_with-append}
use sekv.Api.{
  Value, WriteCondition, WriteConditionType, expect_exists, expect_not_exists, expect_value,
  expect_version, expect_version_lt, expect_version_le, expect_version_gt, expect_version_ge,
  expect_starts_with, expect_ends_with, expect_slice, expect_contains,
}
use sekv.Result.{ok}
use sekv.Eval.Cas.{
  is_some, ends_with, test_content, from_i32, eval_value, eval_none, eval_condition,
}

-- The value is no tombstone, and its content satisfies `P`.
abbrev pub HasContent : (Bytes → Type 0) → Option Bytes → Type 0
HasContent P none = ⊥
HasContent P (some content) = P content

-- What a condition means for a value; `expect_contains` is left out.
abbrev pub Means : WriteConditionType → WriteCondition → Option Value → Type 0
Means expect_not_exists cond none = Unit
Means expect_not_exists cond (some v) = v.content ≡ none
Means expect_contains cond value = Unit
Means type cond none = ⊥
Means expect_exists cond (some v) = HasContent (λ c. Unit) v.content
Means expect_value cond (some v) = HasContent (λ c. c ≡ cond.value) v.content
Means expect_version cond (some v) = v.version ≡ cond.version
Means expect_version_lt cond (some v) = v.version < cond.version
Means expect_version_le cond (some v) = v.version ≤ cond.version
Means expect_version_gt cond (some v) = cond.version < v.version
Means expect_version_ge cond (some v) = cond.version ≤ v.version
Means expect_starts_with cond (some v) =
    HasContent (λ c. (s : Bytes) × (c ≡ cond.value ++ s)) v.content
Means expect_ends_with cond (some v) =
    HasContent (λ c. (p : Bytes) × (c ≡ p ++ cond.value)) v.content
Means expect_slice cond (some v) =
    HasContent
      (λ c.
        (p s : Bytes) × (c ≡ p ++ (cond.value ++ s))
        × (length p ≡ cond.begin)
        × (length p < length c))
      v.content

abbrev Agrees : Bool → Type 0 → Type 0
Agrees b P = (b ≡ true) ↔ P

eval_none-Means :
    (type : WriteConditionType) (cond : WriteCondition)
    → type ≢ expect_contains
    → Agrees (eval_none type) (Means type cond none)
unfolding eval_none
eval_none-Means expect_not_exists cond n = (λ h. tt, λ h. refl)
eval_none-Means expect_contains cond n = absurd (n refl)
eval_none-Means _ cond n = (λ h. cc, λ h. absurd h)

test_content-HasContent :
    (test : Bytes → Bool) (P : Bytes → Type 0) (content : Option Bytes)
    → ((c : Bytes) → Agrees (test c) (P c))
    → Agrees (test_content test content) (HasContent P content)
test_content-HasContent test P none h = (λ e. cc, λ e. absurd e)
test_content-HasContent test P (some c) h = h c

ends_with-Means : (a s : Bytes) → Agrees (ends_with a s) ((p : Bytes) × (a ≡ p ++ s))
ends_with-Means a s = (
  λ h. (
    take (length a - length s) a,
    ground (
      arith,
      eq_bytes_iff (drop (length a - length s) a) s,
      take-append-drop (length a - length s) a,
    ),
  ),
  λ (p, e).
      let n : length a ≡ length p + length s = rw e (length-append p s) in
      let m : length a - length s ≡ length p = omega arith in
      let d : drop (length a - length s) a ≡ s = rw (m, e) (drop_append_left p s (length p) refl) in
      ground (arith, (eq_bytes_iff (drop (length a - length s) a) s).1 d),
)

slice-Means :
    (a s : Bytes) (n : ℕ)
    → Agrees
        (ltb n (length a) && starts_with (drop n a) s)
        ((p t : Bytes) × (a ≡ p ++ (s ++ t)) × (length p ≡ n) × (length p < length a))
slice-Means a s n = (
  λ h.
      let (t, e) = starts_with→append (drop n a) s (ground arith) in
      let fits : n < length a = ground arith in
      let size : length (take n a) ≡ n = omega (
        arith,
        ap (length {A = ℕ}) (take-append-drop n a),
        length-append (take n a) (drop n a),
        length-drop n a,
      ) in
      (take n a, t, rw (← e) (sym (take-append-drop n a)), size, omega arith),
  λ (p, t, e, size, fits).
      let d : drop n a ≡ s ++ t = rw e (drop_append_left p (s ++ t) n size) in
      ground (arith, ap (λ (x : Bytes). starts_with x s) d, starts_with-append s t),
)

exists-Means :
    (content : Option Bytes)
    → Agrees (if is_some content then true else false) (HasContent (λ c. Unit) content)
exists-Means none = (λ e. cc, λ e. absurd e)
exists-Means (some c) = (λ e. tt, λ e. refl)

eval_value-Means :
    (type : WriteConditionType) (cond : WriteCondition) (v : Value)
    → type ≢ expect_contains
    → Agrees (eval_value type cond v) (Means type cond (some v))
unfolding eval_value
eval_value-Means expect_not_exists cond v n = ground arith
eval_value-Means expect_exists cond v n = exists-Means v.content
eval_value-Means expect_value cond v n =
    test_content-HasContent _ (λ c. c ≡ cond.value) v.content (λ c. eq_bytes_iff c cond.value)
eval_value-Means expect_version cond v n = ground arith
eval_value-Means expect_version_lt cond v n = ground arith
eval_value-Means expect_version_le cond v n = ground arith
eval_value-Means expect_version_gt cond v n = ground arith
eval_value-Means expect_version_ge cond v n = ground arith
eval_value-Means expect_starts_with cond v n =
    test_content-HasContent _ (λ c. (s : Bytes) × (c ≡ cond.value ++ s)) v.content
      (λ c. (starts_with→append c cond.value, λ (s, e). rw e (starts_with-append cond.value s)))
eval_value-Means expect_ends_with cond v n =
    test_content-HasContent _ (λ c. (p : Bytes) × (c ≡ p ++ cond.value)) v.content
      (λ c. ends_with-Means c cond.value)
eval_value-Means expect_slice cond v n =
    test_content-HasContent _
      (λ c.
        (p s : Bytes) × (c ≡ p ++ (cond.value ++ s))
        × (length p ≡ cond.begin)
        × (length p < length c))
      v.content (λ c. slice-Means c cond.value cond.begin)
eval_value-Means expect_contains cond v n = absurd (n refl)

-- A condition of a known type, `expect_contains` excepted, evaluates to true exactly when it means
-- something true of the value: a bound on the version, the content itself, or a part of it.
pub eval_condition-Means :
    (type : WriteConditionType) (cond : WriteCondition) (value : Option Value)
    → from_i32 cond.type ≡ some type
    → type ≢ expect_contains
    → (eval_condition cond value ≡ ok true) ↔ Means type cond value
unfolding eval_condition
eval_condition-Means type cond none h n = rw h (
  λ e. (eval_none-Means type cond n).0 (ground arith),
  λ m. ap ok ((eval_none-Means type cond n).1 m),
)
eval_condition-Means type cond (some v) h n = rw h (
  λ e. (eval_value-Means type cond v n).0 (ground arith),
  λ m. ap ok ((eval_value-Means type cond v n).1 m),
)

-- `expect_contains` evaluates to true exactly where the key has a version, a tombstone included, whatever
-- its content and whatever the condition asks it to contain.
eval_condition-contains :
    (cond : WriteCondition) (value : Option Value)
    → from_i32 cond.type ≡ some expect_contains
    → (eval_condition cond value ≡ ok true) ↔ (value ≢ none)
unfolding eval_condition eval_value eval_none
eval_condition-contains cond none h = rw h ((λ e. cc), λ n. absurd (n refl))
eval_condition-contains cond (some v) h = rw h ((λ e n. cc), λ n. refl)
