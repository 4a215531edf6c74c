-- ===== src/Eval/Cas/Laws.antt =====
-- `eval_conditions` against the conditions one by one.
use sekv.Prelude.{
  ℕ, zero, suc, ◌+◌, ◌≡◌, refl, ◌↔◌, Bool, true, false, Option, none, some, List, [], ◌∷◌, All,
  arith,
}
use sekv.Api.{Value, WriteCondition}
use sekv.Result.{Result, ok, err}
use sekv.Eval.Cas.{eval_condition, eval_from, eval_conditions}

abbrev pub Satisfied : Option Value → WriteCondition → Type 0
Satisfied value cond = eval_condition cond value ≡ ok true

eval_from-none :
    (idx : ℕ) (value : Option Value) (conditions : List WriteCondition)
    → eval_from idx value conditions ≡ ok none
    → All (Satisfied value) conditions
unfolding eval_from
eval_from-none idx value [] h = tt
eval_from-none idx value (cond ∷ conditions) h =
    ground (arith, eval_from-none (idx + 1) value conditions)

eval_from-All :
    (idx : ℕ) (value : Option Value) (conditions : List WriteCondition)
    → All (Satisfied value) conditions
    → eval_from idx value conditions ≡ ok none
unfolding eval_from
eval_from-All idx value [] h = refl
eval_from-All idx value (cond ∷ conditions) h =
    ground (arith, h.0, eval_from-All (idx + 1) value conditions h.1)

-- The condition at a position is the first one that fails.
abbrev pub FirstFails : Option Value → List WriteCondition → ℕ → Type 0
FirstFails value [] n = ⊥
FirstFails value (cond ∷ conditions) zero = eval_condition cond value ≡ ok false
FirstFails value (cond ∷ conditions) (suc n) = Satisfied value cond × FirstFails value conditions n

FirstFails-step :
    (idx : ℕ) (value : Option Value) (cond : WriteCondition) (conditions : List WriteCondition)
    (n : ℕ) (b : Bool)
    → eval_condition cond value ≡ ok b
    → eval_from idx value (cond ∷ conditions) ≡ ok (some n)
    → (eval_from (idx + 1) value conditions ≡ ok (some n)
        → (m : ℕ) × (n ≡ idx + 1 + m) × FirstFails value conditions m)
    → (m : ℕ) × (n ≡ idx + m) × FirstFails value (cond ∷ conditions) m
unfolding eval_from
FirstFails-step idx value cond conditions n false e h rest = (zero, ground (arith, e), e)
FirstFails-step idx value cond conditions n true e h rest =
    let (m, p, f) = rest (ground (arith, e)) in (suc m, omega arith, (e, f))

eval_from-some :
    (idx : ℕ) (value : Option Value) (conditions : List WriteCondition) (n : ℕ)
    → eval_from idx value conditions ≡ ok (some n)
    → (m : ℕ) × (n ≡ idx + m) × FirstFails value conditions m
unfolding eval_from
eval_from-some idx value [] n h = cc
eval_from-some idx value (cond ∷ conditions) n h =
    let (b, e) = holds-result (eval_condition cond value) refl in
    FirstFails-step idx value cond conditions n b e h (eval_from-some (idx + 1) value conditions n)
  where
    holds-result :
        (r : Result Bool)
        → eval_condition cond value ≡ r
        → (b : Bool) × (eval_condition cond value ≡ ok b)
    holds-result (ok b) e = (b, e)
    holds-result (err x) e = ground (arith, e)

-- `eval_conditions` returns no index exactly when every condition holds of the value.
pub eval_conditions-none_iff :
    (value : Option Value) (conditions : List WriteCondition)
    → (eval_conditions value conditions ≡ ok none) ↔ All (Satisfied value) conditions
unfolding eval_conditions
eval_conditions-none_iff value conditions =
    (eval_from-none 0 value conditions, eval_from-All 0 value conditions)

-- The index that `eval_conditions` returns is that of the first condition that does not hold: it is
-- false of the value, and those before it hold.
pub eval_conditions-FirstFails :
    (value : Option Value) (conditions : List WriteCondition) (n : ℕ)
    → eval_conditions value conditions ≡ ok (some n)
    → FirstFails value conditions n
unfolding eval_conditions
eval_conditions-FirstFails value conditions n h =
    let (m, p, f) = eval_from-some 0 value conditions n h in
    let same : n ≡ m = omega arith in rw same f
