-- ===== src/Engine/Rows/Seek.antt =====
-- Where the versions of one key stand among the sorted rows of a column family.
use sekv.Prelude.{
  ℕ, ◌<◌, ◌≡◌, refl, ◌≢◌, Bool, true, false, ◌&&◌, List, [], ◌∷◌, arith, All, compare,
  if◌then◌else◌, Bool-cases, inl, inr,
}
use Prim.Native.Nat.Ordering.{lt, eq}
use sekv.Prelude.Bytes.{
  Bytes, cmp, then_order, eq_bytes, lt_bytes, to_le_bytes, cmp_refl, eq_of_cmp, cmp_trans,
}
use sekv.Engine.Keys.{u64_max, raw}
use sekv.Engine.Keys.Order.{cmp-mvcc_key}
use sekv.Engine.Rows.{Row, IsRow, row_key}

-- rocksdb holds the pairs in the order of their keys.
abbrev pub Precedes : Row → Row → Type 0
Precedes r s = cmp (row_key r) (row_key s) ≡ lt

abbrev pub IsSorted : List Row → Type 0
IsSorted [] = Unit
IsSorted (r ∷ rows) = All (Precedes r) rows × IsSorted rows

-- the pairs from a key on
unfoldable pub rows_from : Bytes → List Row → List Row
rows_from key [] = []
rows_from key (r ∷ rows) = if lt_bytes (row_key r) key then rows_from key rows else r ∷ rows

-- a row of the key `k` of table `t`
abbrev pub is_row_of : ℕ → Bytes → Row → Bool
is_row_of t k r = eq_bytes (to_le_bytes 8 r.table_id) (to_le_bytes 8 t) && eq_bytes k r.key

-- All versions of a key, in the order of the rows.
unfoldable pub versions : ℕ → Bytes → List Row → List Row
versions t k [] = []
versions t k (r ∷ rows) = let rest = versions t k rows in if is_row_of t k r then r ∷ rest else rest

-- the versions that a list of rows begins with
unfoldable pub leading : ℕ → Bytes → List Row → List Row
leading t k [] = []
leading t k (r ∷ rows) = if is_row_of t k r then r ∷ leading t k rows else []

-- Each version is newer than those behind it.
abbrev pub IsDescending : List Row → Type 0
IsDescending [] = Unit
IsDescending (r ∷ rows) = All (λ s. s.version < r.version) rows × IsDescending rows

cmp-raw :
    (t : ℕ) (k : Bytes) (r : Row)
    → k ≢ []
    → IsRow r
    → cmp (row_key r) (raw t k)
      ≡ then_order
          (cmp (to_le_bytes 8 r.table_id) (to_le_bytes 8 t))
          (then_order (cmp r.key k) (compare u64_max r.version))
unfolding raw
cmp-raw t [] r n h = absurd (n refl)
cmp-raw t (b ∷ k) r n h =
    cmp-mvcc_key r.table_id t r.key (b ∷ k) r.version u64_max h.key_nonempty n h.version_fits
      (omega arith)

module _ (t : ℕ) (k : Bytes) (nonempty : k ≢ []) where
  -- A version of the key, read off the order.
  is_row_of-cmp :
      (r : Row)
      → is_row_of t k r ≡ true
      → (cmp (to_le_bytes 8 r.table_id) (to_le_bytes 8 t) ≡ eq) × (cmp r.key k ≡ eq)
  unfolding eq_bytes
  is_row_of-cmp r h = ground (arith, eq_of_cmp k r.key, cmp_refl k)

  cmp-is_row_of :
      (r : Row)
      → cmp (to_le_bytes 8 r.table_id) (to_le_bytes 8 t) ≡ eq
      → cmp r.key k ≡ eq
      → is_row_of t k r ≡ true
  unfolding eq_bytes
  cmp-is_row_of r h e = ground (arith, eq_of_cmp r.key k, cmp_refl k)

  -- No version of the key stands before the key that the iterator seeks.
  pub before-raw :
      (r : Row) → IsRow r → lt_bytes (row_key r) (raw t k) ≡ true → is_row_of t k r ≡ false
  before-raw r h e = elim (Bool-cases (is_row_of t k r)) [
    | inr f ↦ f
    | inl m ↦ absurd (ground (arith, cmp-raw t k r nonempty h, is_row_of-cmp r m, h.version_fits))
  ]

  -- Behind a row of another key stands no version of the key.
  pub behind-other :
      (r s : Row)
      → IsRow r
      → IsRow s
      → lt_bytes (row_key r) (raw t k) ≡ false
      → is_row_of t k r ≡ false
      → Precedes r s
      → is_row_of t k s ≡ false
  behind-other r s hr hs a b c = elim (Bool-cases (is_row_of t k s)) [
    | inr f ↦ f
    | inl m ↦ absurd (
        ground (
          arith,
          cmp-raw t k r nonempty hr,
          cmp-mvcc_key r.table_id s.table_id r.key s.key r.version s.version hr.key_nonempty
              hs.key_nonempty hr.version_fits hs.version_fits,
          eq_of_cmp (to_le_bytes 8 s.table_id) (to_le_bytes 8 t) (is_row_of-cmp s m).0,
          eq_of_cmp s.key k (is_row_of-cmp s m).1,
          cmp-is_row_of r,
        ))
  ]

  versions-none :
      (rows : List Row) → All (λ s. is_row_of t k s ≡ false) rows → versions t k rows ≡ []
  unfolding versions
  versions-none [] h = refl
  versions-none (s ∷ rows) h = rw (h.0) (versions-none rows h.1)

  All-behind :
      (r : Row) (rows : List Row)
      → IsRow r
      → lt_bytes (row_key r) (raw t k) ≡ false
      → is_row_of t k r ≡ false
      → All IsRow rows
      → All (Precedes r) rows
      → All (λ s. is_row_of t k s ≡ false) rows
  All-behind r [] hr a b h p = tt
  All-behind r (s ∷ rows) hr a b h p =
      (behind-other r s hr h.0 a b p.0, All-behind r rows hr a b h.1 p.1)

  at_or_behind :
      (r s : Row)
      → lt_bytes (row_key r) (raw t k) ≡ false
      → Precedes r s
      → lt_bytes (row_key s) (raw t k) ≡ false
  at_or_behind r s a p = ground (arith, cmp_trans (row_key r) (row_key s) (raw t k))

  leading-eq-versions :
      (rows : List Row)
      → All IsRow rows
      → IsSorted rows
      → All (λ s. lt_bytes (row_key s) (raw t k) ≡ false) rows
      → leading t k rows ≡ versions t k rows
  unfolding leading versions
  leading-eq-versions [] h s a = refl
  leading-eq-versions (r ∷ rows) h s a = elim (Bool-cases (is_row_of t k r)) [
    | inl m ↦ rw (m, leading-eq-versions rows h.1 s.1 a.1)
    | inr m ↦ rw (m, versions-none rows (All-behind r rows h.0 a.0 m h.1 s.0))
  ]

  All-from :
      (r : Row) (rows : List Row)
      → lt_bytes (row_key r) (raw t k) ≡ false
      → All (Precedes r) rows
      → All (λ s. lt_bytes (row_key s) (raw t k) ≡ false) rows
  All-from r [] a p = tt
  All-from r (s ∷ rows) a p = (at_or_behind r s a p.0, All-from r rows a p.1)

  versions-skip :
      (r : Row) (rows : List Row)
      → is_row_of t k r ≡ false
      → versions t k (r ∷ rows) ≡ versions t k rows
  unfolding versions
  versions-skip r rows b = rw b

  -- The iterator begins with the versions of the key, and with nothing else.
  pub leading-rows_from :
      (rows : List Row)
      → All IsRow rows
      → IsSorted rows
      → leading t k (rows_from (raw t k) rows) ≡ versions t k rows
  unfolding rows_from
  leading-rows_from [] h s = unfold leading versions in refl
  leading-rows_from (r ∷ rows) h s = elim (Bool-cases (lt_bytes (row_key r) (raw t k))) [
    | inl b ↦ rw (b, versions-skip r rows (before-raw r h.0 b)) (leading-rows_from rows h.1 s.1)
    | inr b ↦ rw b (leading-eq-versions (r ∷ rows) h s (b, All-from r rows b s.0))
  ]

  older :
      (r s : Row)
      → IsRow r
      → IsRow s
      → is_row_of t k r ≡ true
      → is_row_of t k s ≡ true
      → Precedes r s
      → s.version < r.version
  older r s hr hs a b p = ground (
    arith,
    cmp-mvcc_key r.table_id s.table_id r.key s.key r.version s.version hr.key_nonempty
        hs.key_nonempty hr.version_fits hs.version_fits,
    eq_of_cmp (to_le_bytes 8 r.table_id) (to_le_bytes 8 t) (is_row_of-cmp r a).0,
    eq_of_cmp (to_le_bytes 8 s.table_id) (to_le_bytes 8 t) (is_row_of-cmp s b).0,
    eq_of_cmp r.key k (is_row_of-cmp r a).1,
    eq_of_cmp s.key k (is_row_of-cmp s b).1,
    cmp_refl k,
    cmp_refl (to_le_bytes 8 t),
  )

  All-older :
      (r : Row) (rows : List Row)
      → IsRow r
      → is_row_of t k r ≡ true
      → All IsRow rows
      → All (Precedes r) rows
      → All (λ s. s.version < r.version) (versions t k rows)
  unfolding versions
  All-older r [] hr a h p = tt
  All-older r (s ∷ rows) hr a h p = elim (Bool-cases (is_row_of t k s)) [
    | inl b ↦ rw b (older r s hr h.0 a b p.0, All-older r rows hr a h.1 p.1)
    | inr b ↦ rw b (All-older r rows hr a h.1 p.1)
  ]

  pub versions-IsDescending :
      (rows : List Row) → All IsRow rows → IsSorted rows → IsDescending (versions t k rows)
  unfolding versions
  versions-IsDescending [] h s = tt
  versions-IsDescending (r ∷ rows) h s = elim (Bool-cases (is_row_of t k r)) [
    | inl a ↦ rw a (All-older r rows h.0 a h.1 s.0, versions-IsDescending rows h.1 s.1)
    | inr a ↦ rw a (versions-IsDescending rows h.1 s.1)
  ]

  pub All-versions {κ} :
      (P : Row → Type κ) (rows : List Row) → All P rows → All P (versions t k rows)
  unfolding versions
  All-versions P [] h = tt
  All-versions P (r ∷ rows) h = elim (Bool-cases (is_row_of t k r)) [
    | inl a ↦ rw a (h.0, All-versions P rows h.1)
    | inr a ↦ rw a (All-versions P rows h.1)
  ]
