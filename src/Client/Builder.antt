-- ===== src/Client/Builder.antt =====
-- `WriteBuilder` of client/src/txn.rs: the requests that the client sends. A builder verifies nothing yet, so
-- that no request is refused.
use sekv.Prelude.{ℕ, ◌≡◌, refl, Bool, true, false, Option, none, some, List, [], ◌∷◌, ◌++◌}
use sekv.Prelude.Bytes.{Bytes, to_be_bytes}
use sekv.Api.{
  PutRequest, DeleteRequest, put_none, add_i64, nop, WriteCondition, WriteConditionType,
  expect_exists, expect_not_exists, expect_value, expect_version, expect_version_lt,
  expect_version_le, expect_version_gt, expect_version_ge, expect_starts_with, expect_ends_with,
  expect_slice, expect_contains,
}
use sekv.Eval.Cas.{from_i32}
use sekv.Client.Error.{ClientResult, ok, err, ◌>>=◌, panicked}

pub record WriteBuilder : Type 0 where
  pub key : Bytes
  pub conditions : List WriteCondition
  pub ttl : Option ℕ
  pub take_prev_value : Bool

unfoldable pub new : Bytes → WriteBuilder
new key = record { key = key; conditions = []; ttl = none; take_prev_value = false }

unfoldable pub with_ttl : Option ℕ → WriteBuilder → WriteBuilder
with_ttl ttl self = record self { ttl = ttl }

unfoldable pub verify_conditions : WriteBuilder → ClientResult (Unit {0})
verify_conditions self = ok tt

abbrev or_default : Option ℕ → ℕ
or_default none = 0
or_default (some n) = n

unfoldable pub put : Bytes → WriteBuilder → ClientResult PutRequest
unfolding verify_conditions
put value self = do
  verified ← verify_conditions self
  ok (record {
    put_type = put_none;
    ttl = or_default self.ttl;
    key = self.key;
    value = value;
    conditions = self.conditions;
    take_prev_value = self.take_prev_value;
  })

unfoldable pub delete : WriteBuilder → ClientResult DeleteRequest
unfolding verify_conditions
delete self = do
  verified ← verify_conditions self
  ok (record {
    key = self.key;
    conditions = self.conditions;
    take_prev_value = self.take_prev_value;
  })

unfoldable pub nop_request : WriteBuilder → ClientResult PutRequest
unfolding verify_conditions
nop_request self = do
  verified ← verify_conditions self
  ok (record {
    put_type = nop;
    ttl = 0;
    key = self.key;
    value = [];
    conditions = self.conditions;
    take_prev_value = false;
  })

-- The number to add is the 64 bit word of an `i64`.
unfoldable pub add : ℕ → WriteBuilder → ClientResult PutRequest
unfolding verify_conditions
add val self = do
  verified ← verify_conditions self
  ok (record {
    put_type = add_i64;
    ttl = or_default self.ttl;
    key = self.key;
    value = to_be_bytes 8 val;
    conditions = self.conditions;
    take_prev_value = self.take_prev_value;
  })

-- the number of a condition's type in its message
unfoldable pub into : WriteConditionType → ℕ
into expect_exists = 0
into expect_not_exists = 1
into expect_value = 2
into expect_version = 3
into expect_version_lt = 4
into expect_version_le = 5
into expect_version_gt = 6
into expect_version_ge = 7
into expect_starts_with = 8
into expect_ends_with = 9
into expect_slice = 10
into expect_contains = 11

from_i32-into : (type : WriteConditionType) → from_i32 (into type) ≡ some type
unfolding into
from_i32-into expect_exists = refl
from_i32-into expect_not_exists = refl
from_i32-into expect_value = refl
from_i32-into expect_version = refl
from_i32-into expect_version_lt = refl
from_i32-into expect_version_le = refl
from_i32-into expect_version_gt = refl
from_i32-into expect_version_ge = refl
from_i32-into expect_starts_with = refl
from_i32-into expect_ends_with = refl
from_i32-into expect_slice = refl
from_i32-into expect_contains = refl

abbrev push : WriteCondition → WriteBuilder → WriteBuilder
push condition self = record self { conditions = self.conditions ++ condition ∷ [] }

-- a condition whose other fields are their defaults
abbrev of_version : WriteConditionType → ℕ → WriteCondition
of_version type version = record { type = into type; value = []; version = version; begin = 0 }

abbrev of_value : WriteConditionType → Bytes → WriteCondition
of_value type value = record { type = into type; value = value; version = 0; begin = 0 }

-- The builder's methods that push a condition
unfoldable pub push_expect_version_lt : ℕ → WriteBuilder → WriteBuilder
push_expect_version_lt expect self = push (of_version expect_version_lt expect) self

unfoldable pub push_expect_version_le : ℕ → WriteBuilder → WriteBuilder
push_expect_version_le expect self = push (of_version expect_version_le expect) self

unfoldable pub push_expect_version_gt : ℕ → WriteBuilder → WriteBuilder
push_expect_version_gt expect self = push (of_version expect_version_gt expect) self

unfoldable pub push_expect_version_ge : ℕ → WriteBuilder → WriteBuilder
push_expect_version_ge expect self = push (of_version expect_version_ge expect) self

unfoldable pub push_expect_version : ℕ → WriteBuilder → WriteBuilder
push_expect_version expect self = push (of_version expect_version expect) self

unfoldable pub push_expect_exists : WriteBuilder → WriteBuilder
push_expect_exists self = push (of_version expect_exists 0) self

unfoldable pub push_expect_not_exists : WriteBuilder → WriteBuilder
push_expect_not_exists self = push (of_version expect_not_exists 0) self

unfoldable pub push_expect_value : Bytes → WriteBuilder → WriteBuilder
push_expect_value value self = push (of_value expect_value value) self

unfoldable pub push_expect_contains : Bytes → WriteBuilder → WriteBuilder
push_expect_contains value self = push (of_value expect_contains value) self

unfoldable pub push_expect_slice : ℕ → Bytes → WriteBuilder → WriteBuilder
push_expect_slice begin value self =
    push (record { type = into expect_slice; value = value; version = 0; begin = begin }) self

unfoldable pub push_expect_starts_with : Bytes → WriteBuilder → WriteBuilder
push_expect_starts_with value self = push (of_value expect_starts_with value) self

unfoldable pub push_expect_ends_with : Bytes → WriteBuilder → WriteBuilder
push_expect_ends_with value self = push (of_value expect_ends_with value) self

-- `WriteBuilder::take_prev_value`
unfoldable pub taking_prev_value : WriteBuilder → WriteBuilder
taking_prev_value self = record self { take_prev_value = true }

-- `expect` of the result panics, which no builder comes to.
unfoldable pub ensure {ℓ} : {A : Type ℓ} → ClientResult A → ClientResult A
ensure (ok a) = ok a
ensure (err e) = err panicked

unfoldable pub ensure_put : Bytes → WriteBuilder → ClientResult PutRequest
ensure_put value self = ensure (put value self)

unfoldable pub ensure_delete : WriteBuilder → ClientResult DeleteRequest
ensure_delete self = ensure (delete self)

unfoldable pub ensure_nop : WriteBuilder → ClientResult PutRequest
ensure_nop self = ensure (nop_request self)

unfoldable pub ensure_add : ℕ → WriteBuilder → ClientResult PutRequest
ensure_add val self = ensure (add val self)
