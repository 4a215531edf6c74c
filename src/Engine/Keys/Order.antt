-- ===== src/Engine/Keys/Order.antt =====
-- The mvcc keys of one table sort by user key, and the versions of a user key newest first.
use sekv.Prelude.{
  ℕ, zero, suc, ◌+◌, ◌-◌, ◌≤◌, ◌<◌, ◌≡◌, refl, sym, ap, ◌∙◌, ◌≢◌, [], ◌∷◌, ◌++◌, arith, compare,
  length, take, drop, length-drop, Ordering,
}
use sekv.Prelude.Bytes.{
  Bytes, cmp, eq_of_cmp, cmp-append, then_order, length-to_le_bytes, to_be_bytes, to_le_bytes,
  cmp-to_be_bytes,
}
use mathlib.Core.List.{append_assoc}
use Prim.Native.Nat.Ordering.{lt, eq, gt}
use sekv.Engine.Keys.{u64_max, pad, group_size, encode_groups, mvcc_key}

-- The number of bytes of a key, as far as `n`, and one more where the key is longer.
abbrev mark : ℕ → Bytes → ℕ
mark n [] = 0
mark zero (b ∷ key) = 1
mark (suc n) (b ∷ key) = suc (mark n key)

group_size-eq-mark : (key : Bytes) → group_size key ≡ mark 8 key
unfolding group_size
group_size-eq-mark [] = refl
group_size-eq-mark (a ∷ []) = refl
group_size-eq-mark (a ∷ b ∷ []) = refl
group_size-eq-mark (a ∷ b ∷ c ∷ []) = refl
group_size-eq-mark (a ∷ b ∷ c ∷ d ∷ []) = refl
group_size-eq-mark (a ∷ b ∷ c ∷ d ∷ e ∷ []) = refl
group_size-eq-mark (a ∷ b ∷ c ∷ d ∷ e ∷ f ∷ []) = refl
group_size-eq-mark (a ∷ b ∷ c ∷ d ∷ e ∷ f ∷ g ∷ []) = refl
group_size-eq-mark (a ∷ b ∷ c ∷ d ∷ e ∷ f ∷ g ∷ h ∷ []) = refl
group_size-eq-mark (a ∷ b ∷ c ∷ d ∷ e ∷ f ∷ g ∷ h ∷ i ∷ key) = refl

pad-empty_lt :
    (n : ℕ) (key x y : Bytes) (s t : ℕ) → s < t → cmp (pad n [] ++ s ∷ x) (pad n key ++ t ∷ y) ≡ lt
unfolding cmp pad
pad-empty_lt zero key x y s t h = ground arith
pad-empty_lt (suc n) [] x y s t h = ground (arith, pad-empty_lt n [] x y s t h)
pad-empty_lt (suc n) (b ∷ key) x y s t h = ground (arith, pad-empty_lt n key x y s t h)

pad-empty_gt :
    (n : ℕ) (key x y : Bytes) (s t : ℕ) → s < t → cmp (pad n key ++ t ∷ y) (pad n [] ++ s ∷ x) ≡ gt
unfolding cmp pad
pad-empty_gt zero key x y s t h = ground arith
pad-empty_gt (suc n) [] x y s t h = ground (arith, pad-empty_gt n [] x y s t h)
pad-empty_gt (suc n) (b ∷ key) x y s t h = ground (arith, pad-empty_gt n key x y s t h)

pad-empty_same : (n s : ℕ) (x y : Bytes) → cmp (pad n [] ++ s ∷ x) (pad n [] ++ s ∷ y) ≡ cmp x y
unfolding cmp pad
pad-empty_same zero s x y = ground arith
pad-empty_same (suc n) s x y = ground (arith, pad-empty_same n s x y)

-- One group with its size byte compares like the bytes in it, and then like the sizes.
cmp-group :
    (n c : ℕ) (k l x y : Bytes)
    → cmp (pad n k ++ (c + mark n k) ∷ x) (pad n l ++ (c + mark n l) ∷ y)
      ≡ then_order
          (cmp (take n k) (take n l))
          (then_order (compare (mark n k) (mark n l)) (cmp x y))
unfolding cmp pad
cmp-group zero c [] [] x y = ground arith
cmp-group zero c [] (b ∷ l) x y = ground arith
cmp-group zero c (a ∷ k) [] x y = ground arith
cmp-group zero c (a ∷ k) (b ∷ l) x y = ground arith
cmp-group (suc n) c [] [] x y = ground (arith, pad-empty_same n (c + 0) x y)
cmp-group (suc n) c [] (b ∷ l) x y =
    pad-empty_lt (suc n) (b ∷ l) x y (c + 0) (c + suc (mark n l)) (omega arith)
cmp-group (suc n) c (a ∷ k) [] x y =
    pad-empty_gt (suc n) (a ∷ k) y x (c + 0) (c + suc (mark n k)) (omega arith)
cmp-group (suc n) c (a ∷ k) (b ∷ l) x y =
    let e : c + suc (mark n k) ≡ suc c + mark n k = omega arith in
    let d : c + suc (mark n l) ≡ suc c + mark n l = omega arith in
    rw (e, d) (ground (arith, cmp-group n (suc c) k l x y))

-- Cutting two keys at one place.
cmp-take-drop :
    (n : ℕ) (k l : Bytes)
    → cmp k l ≡ then_order (cmp (take n k) (take n l)) (cmp (drop n k) (drop n l))
unfolding cmp
cmp-take-drop zero k l = refl
cmp-take-drop (suc n) [] [] = refl
cmp-take-drop (suc n) [] (b ∷ l) = refl
cmp-take-drop (suc n) (a ∷ k) [] = refl
cmp-take-drop (suc n) (a ∷ k) (b ∷ l) = ground (arith, cmp-take-drop n k l)

-- 1 where more of the key follows
abbrev more : Bytes → ℕ
more [] = 0
more (b ∷ key) = 1

mark_lem : (n : ℕ) (key : Bytes) → mark n key ≡ length (take n key) + more (drop n key)
mark_lem zero [] = refl
mark_lem zero (b ∷ key) = refl
mark_lem (suc n) [] = refl
mark_lem (suc n) (b ∷ key) = omega (arith, mark_lem n key)

-- Where two keys agree on a group, the sizes say whether another one follows.
cmp-tails :
    (m : ℕ) (k l : Bytes) (rest o : Ordering)
    → (k ≢ [] → l ≢ [] → rest ≡ then_order (cmp k l) o)
    → (k ≡ [] → l ≡ [] → rest ≡ o)
    → then_order (compare (m + more k) (m + more l)) rest ≡ then_order (cmp k l) o
unfolding cmp
cmp-tails m [] [] rest o h e = rw (e refl refl) (ground arith)
cmp-tails m [] (b ∷ l) rest o h e = ground arith
cmp-tails m (a ∷ k) [] rest o h e = ground arith
cmp-tails m (a ∷ k) (b ∷ l) rest o h e = rw (h (λ p. cc) (λ p. cc)) (ground arith)

cmp-first_group :
    (k l x y : Bytes) (o : Ordering)
    → (drop 8 k ≢ [] → drop 8 l ≢ [] → cmp x y ≡ then_order (cmp (drop 8 k) (drop 8 l)) o)
    → (drop 8 k ≡ [] → drop 8 l ≡ [] → cmp x y ≡ o)
    → cmp (pad 8 k ++ (b'0' + mark 8 k) ∷ x) (pad 8 l ++ (b'0' + mark 8 l) ∷ y)
      ≡ then_order (cmp k l) o
cmp-first_group k l x y o h e =
    rw (cmp-group 8 b'0' k l x y, cmp-take-drop 8 k l) (go (cmp (take 8 k) (take 8 l)) refl)
  where
    go :
        (c : Ordering)
        → cmp (take 8 k) (take 8 l) ≡ c
        → then_order c (then_order (compare (mark 8 k) (mark 8 l)) (cmp x y))
          ≡ then_order (then_order c (cmp (drop 8 k) (drop 8 l))) o
    go lt p = refl
    go gt p = refl
    go eq p =
        let same : length (take 8 k) ≡ length (take 8 l) =
          ap length (eq_of_cmp (take 8 k) (take 8 l) p) in
        rw (mark_lem 8 k, mark_lem 8 l, same)
          (cmp-tails (length (take 8 l)) (drop 8 k) (drop 8 l) (cmp x y) o h e)

encode_groups-empty : (f : ℕ) (k : Bytes) → k ≡ [] → encode_groups f k ≡ []
unfolding encode_groups
encode_groups-empty f [] h = refl
encode_groups-empty f (a ∷ k) h = cc

-- The groups of two keys, whatever follows them, compare like the keys.
cmp-encode_groups :
    (f g : ℕ) (k l x y : Bytes)
    → length k ≤ f
    → length l ≤ g
    → k ≢ []
    → l ≢ []
    → cmp (encode_groups f k ++ x) (encode_groups g l ++ y) ≡ then_order (cmp k l) (cmp x y)
unfolding encode_groups
cmp-encode_groups f g [] l x y h h' p q = absurd (p refl)
cmp-encode_groups f g (a ∷ k) [] x y h h' p q = absurd (q refl)
cmp-encode_groups zero g (a ∷ k) (b ∷ l) x y h h' p q = absurd (omega arith)
cmp-encode_groups (suc f) zero (a ∷ k) (b ∷ l) x y h h' p q = absurd (omega arith)
cmp-encode_groups (suc f) (suc g) (a ∷ k) (b ∷ l) x y h h' p q =
    simp (group_size-eq-mark, append_assoc)
      (cmp-first_group (a ∷ k) (b ∷ l) (encode_groups f (drop 8 (a ∷ k)) ++ x)
        (encode_groups g (drop 8 (b ∷ l)) ++ y) (cmp x y)
        (cmp-encode_groups f g (drop 8 (a ∷ k)) (drop 8 (b ∷ l)) x y
          (omega (arith, length-drop 8 (a ∷ k))) (omega (arith, length-drop 8 (b ∷ l))))
        (λ e d.
          rw (encode_groups-empty f (drop 8 (a ∷ k)) e, encode_groups-empty g (drop 8 (b ∷ l)) d)
            refl))

-- Mvcc keys compare by the bytes of the table, then by user key, and then by version, the newer one
-- first. User keys are not empty and versions are 64 bit words.
pub cmp-mvcc_key :
    (s t : ℕ) (k l : Bytes) (v w : ℕ)
    → k ≢ []
    → l ≢ []
    → v ≤ u64_max
    → w ≤ u64_max
    → cmp (mvcc_key s k v) (mvcc_key t l w)
      ≡ then_order (cmp (to_le_bytes 8 s) (to_le_bytes 8 t)) (then_order (cmp k l) (compare w v))
unfolding mvcc_key
cmp-mvcc_key s t k l v w p q hv hw =
    rw
      (
        cmp-append (to_le_bytes 8 s) (to_le_bytes 8 t)
            (encode_groups (length k) k ++ to_be_bytes 8 (u64_max - v))
            (encode_groups (length l) l ++ to_be_bytes 8 (u64_max - w))
            (length-to_le_bytes 8 s ∙ sym (length-to_le_bytes 8 t)),
        cmp-encode_groups (length k) (length l) k l (to_be_bytes 8 (u64_max - v))
            (to_be_bytes 8 (u64_max - w)) (omega arith) (omega arith) p q,
        cmp-to_be_bytes 8 (u64_max - v) (u64_max - w) (omega arith) (omega arith),
      )
      (ground arith)
