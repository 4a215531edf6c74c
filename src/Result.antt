-- ===== src/Result.antt =====
-- `crate::Error` and `crate::Result` of server/src/error.rs, as far as the modelled code makes or
-- matches errors, with the error monad. A message text is dropped. A panic is the error
-- `panicked`, which no code catches.
use sekv.Prelude.{ℕ, ◌≡◌, refl, Option}
use sekv.Api.{Value, ForwardCtx}

pub data Error : Type 0 where
  shard_not_found : ℕ → Error
  invalid_argument invalid_data txn_conflict decode_error storage_error internal panicked : Error
  cas_failed : ℕ → ℕ → Option Value → Error
  forward : ForwardCtx → Error

infixl 5 ◌>>◌ ◌>>=◌
pub data Result {ι} (T : Type ι) : Type ι where
  ok : T → Result T
  err : Error → Result T

-- the operator `?`, followed by what uses its value
abbrev pub ◌>>=◌ {ι κ} : {A : Type ι} {B : Type κ} → Result A → (A → Result B) → Result B
ok value >>= continue = continue value
err error >>= continue = err error

abbrev pub ◌>>◌ {κ} : {B : Type κ} → Result (Unit {0}) → Result B → Result B
checked >> continue = checked >>= λ _. continue

-- `Option::ok_or`
abbrev pub ok_or {ℓ} : {A : Type ℓ} → Option A → Error → Result A
ok_or (Option.some a) e = ok a
ok_or Option.none e = err e

-- A chain that returns a value had one at its first step.
pub >>=-eq-ok {ι κ} :
    {A : Type ι} {B : Type κ} (result : Result A) (continue : A → Result B) {value : B}
    → (result >>= continue) ≡ ok value
    → (a : A) × (result ≡ ok a) × (continue a ≡ ok value)
>>=-eq-ok (ok a) continue h = (a, refl, h)
>>=-eq-ok (err e) continue h = cc

pub ok-eq {ι} : {A : Type ι} {a b : A} → Path (Result A) (ok a) (ok b) → a ≡ b
ok-eq h = cc
