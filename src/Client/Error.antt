-- ===== src/Client/Error.antt =====
-- `Error` and `Result` of client/src/error.rs, with the error monad. A message text is dropped, as is what
-- an error says of a group, a replica or the transport. A panic is the error `panicked`.
use sekv.Prelude.{ℕ, ◌≡◌, refl, Option}
use sekv.Api.{Value}

pub data ClientError : Type 0 where
  invalid_argument deadline_exceeded already_exists not_found resource_exhausted : ClientError
  cas_failed : ℕ → ℕ → Option Value → ClientError
  txn_conflict epoch_not_match group_not_found not_root_leader not_leader : ClientError
  group_not_accessable transport connect rpc internal panicked : ClientError

infixl 5 ◌>>=◌
pub data ClientResult {ι} (T : Type ι) : Type ι where
  ok : T → ClientResult T
  err : ClientError → ClientResult T

-- the operator `?`, followed by what uses its value
abbrev pub ◌>>=◌ {ι κ} :
    {A : Type ι} {B : Type κ} → ClientResult A → (A → ClientResult B) → ClientResult B
ok value >>= continue = continue value
err error >>= continue = err error

-- `Option::ok_or_else`
abbrev pub ok_or {ℓ} : {A : Type ℓ} → Option A → ClientError → ClientResult A
ok_or (Option.some a) e = ok a
ok_or Option.none e = err e

-- A chain that returns a value had one at its first step.
pub >>=-eq-ok {ι κ} :
    {A : Type ι} {B : Type κ} (result : ClientResult A) (continue : A → ClientResult B) {value : B}
    → (result >>= continue) ≡ ok value
    → (a : A) × (result ≡ ok a) × (continue a ≡ ok value)
>>=-eq-ok (ok a) continue h = (a, refl, h)
>>=-eq-ok (err e) continue h = cc

pub ok-eq {ι} : {A : Type ι} {a b : A} → Path (ClientResult A) (ok a) (ok b) → a ≡ b
ok-eq h = cc
