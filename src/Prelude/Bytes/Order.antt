-- ===== src/Prelude/Bytes/Order.antt =====
-- The lexicographic order of byte slices (`Ord for [u8]`), `==` and `starts_with`.
use mathlib.Core.Path.{◌≡◌, refl}
use mathlib.Core.Logic.{◌↔◌}
use mathlib.Core.Bool.{Bool, true, false, ◌&&◌}
use mathlib.Core.List.{List, [], ◌∷◌, ◌++◌}
use native.Mathlib.Omega.{arith}
use Prim.Native.Nat.{ℕ, ◌<◌, compare, Ordering}
use Prim.Native.Nat.Ordering.{lt, eq, gt}
use sekv.Prelude.Tests.{◌==◌}
use sekv.Prelude.Lists.{All, length}

abbrev pub Bytes : Type 0
Bytes = List ℕ

abbrev pub IsByte : ℕ → Type 0
IsByte b = b < 256

abbrev pub IsBytes : Bytes → Type 0
IsBytes bs = All IsByte bs

-- `<[u8]>::is_empty`
abbrev pub is_empty : Bytes → Bool
is_empty [] = true
is_empty (b ∷ bs) = false

-- `Ordering::then`
abbrev pub then_order : Ordering → Ordering → Ordering
then_order eq o = o
then_order lt o = lt
then_order gt o = gt

-- `<[u8] as Ord>::cmp`
unfoldable pub cmp : Bytes → Bytes → Ordering
cmp [] [] = eq
cmp [] (y ∷ ys) = lt
cmp (x ∷ xs) [] = gt
cmp (x ∷ xs) (y ∷ ys) = then_order (compare x y) (cmp xs ys)

abbrev pub lt_bytes : Bytes → Bytes → Bool
lt_bytes a b = elim (cmp a b) [ lt ↦ true | _ ↦ false ]

abbrev pub le_bytes : Bytes → Bytes → Bool
le_bytes a b = elim (cmp a b) [ gt ↦ false | _ ↦ true ]

unfoldable pub eq_bytes : Bytes → Bytes → Bool
eq_bytes a b = elim (cmp a b) [ eq ↦ true | _ ↦ false ]

-- `a.starts_with(p)`
unfoldable pub starts_with : Bytes → Bytes → Bool
starts_with a [] = true
starts_with [] (p ∷ ps) = false
starts_with (a ∷ as') (p ∷ ps) = a == p && starts_with as' ps

pub cmp_refl : (a : Bytes) → cmp a a ≡ eq
unfolding cmp
cmp_refl [] = refl
cmp_refl (x ∷ xs) = ground (arith, cmp_refl xs)

pub eq_of_cmp : (a b : Bytes) → cmp a b ≡ eq → a ≡ b
unfolding cmp
eq_of_cmp [] [] h = refl
eq_of_cmp [] (y ∷ ys) h = cc
eq_of_cmp (x ∷ xs) [] h = cc
eq_of_cmp (x ∷ xs) (y ∷ ys) h = ground (arith, eq_of_cmp xs ys)

pub cmp_flip : (a b : Bytes) → (cmp a b ≡ lt) ↔ (cmp b a ≡ gt)
unfolding cmp
cmp_flip [] [] = ground arith
cmp_flip [] (y ∷ ys) = ground arith
cmp_flip (x ∷ xs) [] = ground arith
cmp_flip (x ∷ xs) (y ∷ ys) = ground (arith, cmp_flip xs ys)

pub cmp_trans : (a b c : Bytes) → cmp a b ≡ lt → cmp b c ≡ lt → cmp a c ≡ lt
unfolding cmp
cmp_trans [] [] c h k = cc
cmp_trans [] (y ∷ ys) [] h k = cc
cmp_trans [] (y ∷ ys) (z ∷ zs) h k = refl
cmp_trans (x ∷ xs) [] c h k = cc
cmp_trans (x ∷ xs) (y ∷ ys) [] h k = cc
cmp_trans (x ∷ xs) (y ∷ ys) (z ∷ zs) h k = ground (arith, cmp_trans xs ys zs)

pub eq_bytes_refl : (a : Bytes) → eq_bytes a a ≡ true
unfolding eq_bytes
eq_bytes_refl a = rw (cmp_refl a, eq_bytes)

pub eq_bytes_iff : (a b : Bytes) → (eq_bytes a b ≡ true) ↔ (a ≡ b)
unfolding eq_bytes
eq_bytes_iff a b = (λ h. ground (arith, eq_of_cmp a b), λ h. rw h (eq_bytes_refl b))

-- Strings of one length compare by their heads first.
pub cmp-append :
    (a b x y : Bytes) → length a ≡ length b → cmp (a ++ x) (b ++ y) ≡ then_order (cmp a b) (cmp x y)
unfolding cmp
cmp-append [] [] x y h = refl
cmp-append [] (b ∷ bs) x y h = absurd (omega arith)
cmp-append (a ∷ as') [] x y h = absurd (omega arith)
cmp-append (a ∷ as') (b ∷ bs) x y h = ground (arith, cmp-append as' bs x y)

-- A common prefix does not matter.
pub cmp_append_left : (p x y : Bytes) → cmp (p ++ x) (p ++ y) ≡ cmp x y
unfolding cmp
cmp_append_left [] x y = refl
cmp_append_left (p ∷ ps) x y = ground (arith, cmp_append_left ps x y)

-- A prefix is what the string begins with.
pub starts_with→append : (a p : Bytes) → starts_with a p ≡ true → (s : Bytes) × (a ≡ p ++ s)
unfolding starts_with
starts_with→append a [] h = (a, refl)
starts_with→append [] (p ∷ ps) h = cc
starts_with→append (a ∷ as') (p ∷ ps) h =
    let (s, e) = starts_with→append as' ps (ground arith) in (s, ground arith)

pub starts_with-append : (p s : Bytes) → starts_with (p ++ s) p ≡ true
unfolding starts_with
starts_with-append [] s = refl
starts_with-append (p ∷ ps) s = ground (arith, starts_with-append ps s)
