-- ===== src/Prelude/Bytes/Endian.antt =====
-- `to_be_bytes`, `to_le_bytes` and `from_be_bytes` of a `w` byte word, with their laws.
use mathlib.Core.Path.{◌≡◌, refl, ap}
use mathlib.Core.List.{[], ◌∷◌, ◌++◌}
use native.Mathlib.Omega.{arith}
use Prim.Native.Nat.{ℕ, zero, suc, ◌+◌, ◌*◌, ◌/◌, ◌%◌, ◌<◌, compare}
use sekv.Prelude.Lists.{All-append, length, length-append}
use sekv.Prelude.Bytes.Order.{Bytes, IsByte, IsBytes, cmp, cmp-append, then_order}

-- The number of values of a `w` byte word.
abbrev pub words : ℕ → ℕ
words zero = 1
words (suc w) = 256 * words w

unfoldable pub to_be_bytes : ℕ → ℕ → Bytes
to_be_bytes zero n = []
to_be_bytes (suc w) n = to_be_bytes w (n / 256) ++ (n % 256) ∷ []

unfoldable pub to_le_bytes : ℕ → ℕ → Bytes
to_le_bytes zero n = []
to_le_bytes (suc w) n = (n % 256) ∷ to_le_bytes w (n / 256)

unfoldable pub from_be : ℕ → Bytes → ℕ
from_be acc [] = acc
from_be acc (b ∷ bs) = from_be (acc * 256 + b) bs

unfoldable pub from_be_bytes : Bytes → ℕ
unfolding from_be
from_be_bytes bs = from_be 0 bs

pub length-to_be_bytes : (w n : ℕ) → length (to_be_bytes w n) ≡ w
unfolding to_be_bytes
length-to_be_bytes zero n = refl
length-to_be_bytes (suc w) n = omega (
  arith,
  length-append (to_be_bytes w (n / 256)) ((n % 256) ∷ []),
  length-to_be_bytes w (n / 256),
)

pub length-to_le_bytes : (w n : ℕ) → length (to_le_bytes w n) ≡ w
unfolding to_le_bytes
length-to_le_bytes zero n = refl
length-to_le_bytes (suc w) n = ap suc (length-to_le_bytes w (n / 256))

pub to_be_bytes-IsBytes : (w n : ℕ) → IsBytes (to_be_bytes w n)
unfolding to_be_bytes
to_be_bytes-IsBytes zero n = tt
to_be_bytes-IsBytes (suc w) n =
    All-append IsByte (to_be_bytes w (n / 256)) ((n % 256) ∷ []) (to_be_bytes-IsBytes w (n / 256))
      (omega arith, tt)

from_be-append :
    (acc : ℕ) (bs : Bytes) (b : ℕ) → from_be acc (bs ++ b ∷ []) ≡ from_be acc bs * 256 + b
unfolding from_be
from_be-append acc [] b = refl
from_be-append acc (c ∷ bs) b = from_be-append (acc * 256 + c) bs b

from_be-to_be : (w n : ℕ) → n < words w → from_be 0 (to_be_bytes w n) ≡ n
unfolding from_be to_be_bytes
from_be-to_be zero n h = omega arith
from_be-to_be (suc w) n h = omega (
  arith,
  from_be-append 0 (to_be_bytes w (n / 256)) (n % 256),
  from_be-to_be w (n / 256) (omega arith),
)

pub from_be_bytes-to_be_bytes : (w n : ℕ) → n < words w → from_be_bytes (to_be_bytes w n) ≡ n
unfolding from_be_bytes
from_be_bytes-to_be_bytes w n h = from_be-to_be w n h

compare-digits :
    (a b : ℕ) → then_order (compare (a / 256) (b / 256)) (compare (a % 256) (b % 256)) ≡ compare a b
compare-digits a b = ground arith

-- Big endian words compare as numbers.
pub cmp-to_be_bytes :
    (w a b : ℕ) → a < words w → b < words w → cmp (to_be_bytes w a) (to_be_bytes w b) ≡ compare a b
unfolding to_be_bytes cmp
cmp-to_be_bytes zero a b h k = ground arith
cmp-to_be_bytes (suc w) a b h k = ground (
  arith,
  cmp-append (to_be_bytes w (a / 256)) (to_be_bytes w (b / 256)) ((a % 256) ∷ []) ((b % 256) ∷ []),
  length-to_be_bytes w (a / 256),
  length-to_be_bytes w (b / 256),
  cmp-to_be_bytes w (a / 256) (b / 256) (omega arith) (omega arith),
  compare-digits a b,
)
