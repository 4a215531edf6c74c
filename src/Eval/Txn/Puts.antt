-- ===== src/Eval/Txn/Puts.antt =====
-- `apply_put_op` of server/src/replica/eval/cmd_txn.rs: what a put of each type writes.
use sekv.Prelude.{ℕ, ◌≡◌, refl, ◌∙◌, ap, sym, ◌↔◌, ◌+◌, ◌%◌, ◌^◌, Option, none, some, arith}
use sekv.Prelude.Bytes.{Bytes, to_be_bytes}
use sekv.Rock.Num.{decode_i64, wrapping_add, decode_u64-to_be_bytes}
use sekv.Api.{Value, PutType, put_none, nop, add_i64}
use sekv.Result.{Result, ok, invalid_argument, ◌>>=◌, ok_or, >>=-eq-ok, ok-eq}
use sekv.Eval.Txn.{former, apply_put_op}

-- The number that an addition starts from: 0 where the key has no content.
abbrev StartsFromContent : Option Bytes → ℕ → Type 0
StartsFromContent none a = a ≡ 0
StartsFromContent (some content) a = decode_i64 content ≡ some a

abbrev pub StartsFrom : Option Value → ℕ → Type 0
StartsFrom none a = a ≡ 0
StartsFrom (some v) a = StartsFromContent v.content a

former-StartsFrom :
    (prev_value : Option Value) (a : ℕ) → StartsFrom prev_value a ↔ (former prev_value ≡ ok a)
former-StartsFrom none a = (λ h. rw h refl, λ h. cc)
former-StartsFrom (some v) a = by_content v.content
  where
    by_number : (o : Option ℕ) → (o ≡ some a) ↔ (ok_or o invalid_argument ≡ ok a)
    by_number none = (λ h. cc, λ h. cc)
    by_number (some n) = (λ h. cc, λ h. cc)

    by_content :
        (content : Option Bytes)
        → StartsFromContent content a ↔ (
            (elim content as (λ _. Result ℕ) [
              | none ↦ ok 0
              | some c ↦ ok_or (decode_i64 c) invalid_argument
            ])
            ≡ ok a)
    by_content none = (λ h. rw h refl, λ h. cc)
    by_content (some c) = by_number (decode_i64 c)

-- An addition to a key whose content is a number, or which has no content and counts as 0, stores the sum of
-- that number and of the number in the request, wrapped round at 2^64; what it stores reads back as that sum.
pub apply_put_op-add_i64 :
    (prev_value : Option Value) (value : Bytes) (a b : ℕ)
    → StartsFrom prev_value a
    → decode_i64 value ≡ some b
    → (apply_put_op add_i64 prev_value value ≡ ok (some (to_be_bytes 8 ((a + b) % 2 ^ 64))))
      × (decode_i64 (to_be_bytes 8 ((a + b) % 2 ^ 64)) ≡ some ((a + b) % 2 ^ 64))
unfolding apply_put_op
apply_put_op-add_i64 prev_value value a b h k = (
  rw (k, (former-StartsFrom prev_value a).0 h) refl,
  decode_u64-to_be_bytes ((a + b) % 2 ^ 64) (omega arith),
)

-- What a put of each type writes.
abbrev pub Puts : PutType → Option Value → Bytes → Option Bytes → Type 0
Puts put_none prev_value value content = content ≡ some value
Puts nop prev_value value content = content ≡ none
Puts add_i64 prev_value value content =
    (a b : ℕ) × StartsFrom prev_value a
    × (decode_i64 value ≡ some b)
    × (content ≡ some (to_be_bytes 8 ((a + b) % 2 ^ 64)))

add_i64-Puts :
    (prev_value : Option Value) (value : Bytes) (content : Option Bytes)
    → apply_put_op add_i64 prev_value value ≡ ok content
    → Puts add_i64 prev_value value content
unfolding apply_put_op
add_i64-Puts prev_value value content h =
    let d =
      >>=-eq-ok (ok_or (decode_i64 value) invalid_argument)
        (λ delta. former prev_value >>= λ former_value.
          ok (some (to_be_bytes 8 (wrapping_add former_value delta))))
        h in
    let f =
      >>=-eq-ok (former prev_value)
        (λ former_value. ok (some (to_be_bytes 8 (wrapping_add former_value d.0)))) d.2 in
    (
      f.0,
      d.0,
      (former-StartsFrom prev_value f.0).1 f.1,
      ok_or-some (decode_i64 value) d.0 d.1,
      sym (ok-eq f.2),
    )
  where
    ok_or-some : (o : Option ℕ) (n : ℕ) → ok_or o invalid_argument ≡ ok n → o ≡ some n
    ok_or-some none n e = cc
    ok_or-some (some m) n e = cc

pub apply_put_op-Puts :
    (type : PutType) (prev_value : Option Value) (value : Bytes) (content : Option Bytes)
    → (apply_put_op type prev_value value ≡ ok content) ↔ Puts type prev_value value content
unfolding apply_put_op
apply_put_op-Puts put_none prev_value value content = (λ h. cc, λ h. rw h refl)
apply_put_op-Puts nop prev_value value content = (λ h. cc, λ h. rw h refl)
apply_put_op-Puts add_i64 prev_value value content = (
  add_i64-Puts prev_value value content,
  λ (a, b, h, k, e). (apply_put_op-add_i64 prev_value value a b h k).0 ∙ ap (λ c. ok c) (sym e),
)
