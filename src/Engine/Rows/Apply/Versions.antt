-- ===== src/Engine/Rows/Apply/Versions.antt =====
-- The versions of a key after a batch was written.
use sekv.Prelude.{
  ℕ, ◌<◌, ◌≡◌, refl, ◌∙◌, Bool, Bool-cases, Ordering-cases, inl, inr, true, false, List, [], ◌∷◌,
  arith, All, compare, ◌==◌, if◌then◌else◌,
}
use Prim.Native.Nat.Ordering.{lt, eq}
use sekv.Prelude.Bytes.{Bytes, cmp, eq_bytes, eq_bytes_iff, to_le_bytes, cmp_refl, eq_of_cmp}
use sekv.Engine.Keys.Order.{cmp-mvcc_key}
use sekv.Engine.Rows.{Row, IsRow, row_key}
use sekv.Engine.Rows.Seek.{is_row_of, versions}
use sekv.Engine.Rows.Apply.{insert_row, remove_row, insert-lt, insert-eq, insert-gt}

-- Rows with one mvcc key agree on the table, the key and the version.
same_key :
    (r s : Row)
    → IsRow r
    → IsRow s
    → row_key r ≡ row_key s
    → (to_le_bytes 8 r.table_id ≡ to_le_bytes 8 s.table_id)
      × (r.key ≡ s.key)
      × (r.version ≡ s.version)
same_key r s hr hs e =
    let order : cmp (row_key r) (row_key s) ≡ eq = rw e (cmp_refl (row_key s)) in
    let parts =
      cmp-mvcc_key r.table_id s.table_id r.key s.key r.version s.version hr.key_nonempty
        hs.key_nonempty hr.version_fits hs.version_fits in
    (
      eq_of_cmp (to_le_bytes 8 r.table_id) (to_le_bytes 8 s.table_id)
          (ground (arith, parts, order)),
      eq_of_cmp r.key s.key (ground (arith, parts, order)),
      ground (arith, parts, order),
    )

is_row_of-same :
    (t : ℕ) (k : Bytes) (r s : Row)
    → IsRow r
    → IsRow s
    → row_key r ≡ row_key s
    → is_row_of t k r ≡ is_row_of t k s
is_row_of-same t k r s hr hs e = let (a, b, c) = same_key r s hr hs e in rw (a, b) refl

-- the versions but for one
abbrev pub without : ℕ → List Row → List Row
without version [] = []
without version (s ∷ rows) =
    let rest = without version rows in if s.version == version then rest else s ∷ rest

module _ (t : ℕ) (k : Bytes) where
  -- Rows of the key stand in the order of their versions, the newest first.
  cmp-row_of :
      (r s : Row)
      → IsRow r
      → IsRow s
      → is_row_of t k r ≡ true
      → is_row_of t k s ≡ true
      → cmp (row_key r) (row_key s) ≡ compare s.version r.version
  cmp-row_of r s hr hs a b =
      let tr : to_le_bytes 8 r.table_id ≡ to_le_bytes 8 t =
        (eq_bytes_iff (to_le_bytes 8 r.table_id) (to_le_bytes 8 t)).0 (ground arith) in
      let ts : to_le_bytes 8 s.table_id ≡ to_le_bytes 8 t =
        (eq_bytes_iff (to_le_bytes 8 s.table_id) (to_le_bytes 8 t)).0 (ground arith) in
      let kr : k ≡ r.key = (eq_bytes_iff k r.key).0 (ground arith) in
      let ks : k ≡ s.key = (eq_bytes_iff k s.key).0 (ground arith) in
      cmp-mvcc_key r.table_id s.table_id r.key s.key r.version s.version hr.key_nonempty
        hs.key_nonempty hr.version_fits hs.version_fits
      ∙ rw (tr, ts, ← kr, ← ks, cmp_refl (to_le_bytes 8 t), cmp_refl k) refl

  split_row {κ} :
      (P : Row → Type κ) (s : Row) (rows : List Row)
      → is_row_of t k s ≡ true
      → All P (versions t k (s ∷ rows))
      → P s × All P (versions t k rows)
  unfolding versions
  split_row P s rows e a = go (is_row_of t k s) e a
    where
      go :
          (b : Bool)
          → b ≡ true
          → All P (if b then s ∷ versions t k rows else versions t k rows)
          → P s × All P (versions t k rows)
      go true e a = a
      go false e a = cc

  split_other {κ} :
      (P : Row → Type κ) (s : Row) (rows : List Row)
      → is_row_of t k s ≡ false
      → All P (versions t k (s ∷ rows))
      → All P (versions t k rows)
  unfolding versions
  split_other P s rows e a = go (is_row_of t k s) e a
    where
      go :
          (b : Bool)
          → b ≡ false
          → All P (if b then s ∷ versions t k rows else versions t k rows)
          → All P (versions t k rows)
      go false e a = a
      go true e a = cc

  eq_bytes-row_of :
      (s r : Row)
      → IsRow s
      → IsRow r
      → is_row_of t k s ≡ true
      → is_row_of t k r ≡ true
      → eq_bytes (row_key s) (row_key r) ≡ (s.version == r.version)
  unfolding eq_bytes
  eq_bytes-row_of s r hs hr a b = ground (arith, cmp-row_of s r hs hr a b)

  eq_bytes-other :
      (s r : Row)
      → IsRow s
      → IsRow r
      → is_row_of t k s ≡ false
      → is_row_of t k r ≡ true
      → eq_bytes (row_key s) (row_key r) ≡ false
  eq_bytes-other s r hs hr a b = elim (Bool-cases (eq_bytes (row_key s) (row_key r))) [
    | inr e ↦ e
    | inl e ↦
        let same = is_row_of-same t k s r hs hr ((eq_bytes_iff (row_key s) (row_key r)).0 e) in
        absurd (ground (arith, same))
  ]

  -- A row of another key leaves the versions of this one.
  versions-insert_other :
      (r : Row) (rows : List Row)
      → IsRow r
      → All IsRow rows
      → is_row_of t k r ≡ false
      → versions t k (insert_row r rows) ≡ versions t k rows
  unfolding versions insert_row
  versions-insert_other r [] hr h o = rw o refl
  versions-insert_other r (s ∷ rows) hr h o = elim (Ordering-cases (cmp (row_key r) (row_key s))) [
    | inl p ↦ rw (insert-lt r s rows p, o) refl
    | inr (inl p) ↦
        let same = is_row_of-same t k r s hr h.0 (eq_of_cmp (row_key r) (row_key s) p) in
        rw (insert-eq r s rows p) (ground (arith, same, o))
    | inr (inr p) ↦
        rw (insert-gt r s rows p) (ground (arith, versions-insert_other r rows hr h.1 o))
  ]

  -- A row of the key that is newer than its versions comes before them.
  pub versions-insert :
      (r : Row) (rows : List Row)
      → IsRow r
      → All IsRow rows
      → is_row_of t k r ≡ true
      → All (λ s. s.version < r.version) (versions t k rows)
      → versions t k (insert_row r rows) ≡ r ∷ versions t k rows
  unfolding versions insert_row
  versions-insert r [] hr h o n = rw o refl
  versions-insert r (s ∷ rows) hr h o n = elim (Bool-cases (is_row_of t k s)) [
    | inl b ↦
        let first : s.version < r.version = (split_row (λ v. v.version < r.version) s rows b n).0 in
        let p : cmp (row_key r) (row_key s) ≡ lt = ground (arith, cmp-row_of r s hr h.0 o b) in
        rw (insert-lt r s rows p, o) refl
    | inr b ↦ elim (Ordering-cases (cmp (row_key r) (row_key s))) [
      | inl p ↦ rw (insert-lt r s rows p, o) refl
      | inr (inl p) ↦
          let same = is_row_of-same t k r s hr h.0 (eq_of_cmp (row_key r) (row_key s) p) in
          absurd (ground (arith, same, o, b))
      | inr (inr p) ↦
          rw (insert-gt r s rows p, b)
            (versions-insert r rows hr h.1 o (split_other (λ v. v.version < r.version) s rows b n))
    ]
  ]

  -- The removal of a row of the key takes its version out of them.
  pub versions-remove :
      (r : Row) (rows : List Row)
      → IsRow r
      → All IsRow rows
      → is_row_of t k r ≡ true
      → versions t k (remove_row r rows) ≡ without r.version (versions t k rows)
  unfolding versions remove_row
  versions-remove r [] hr h o = refl
  versions-remove r (s ∷ rows) hr h o = elim (Bool-cases (is_row_of t k s)) [
    | inl b ↦ rw (eq_bytes-row_of s r h.0 hr b o) (ground (arith, versions-remove r rows hr h.1 o))
    | inr b ↦ rw (eq_bytes-other s r h.0 hr b o, b) (versions-remove r rows hr h.1 o)
  ]

  versions-remove_other :
      (r : Row) (rows : List Row)
      → IsRow r
      → All IsRow rows
      → is_row_of t k r ≡ false
      → versions t k (remove_row r rows) ≡ versions t k rows
  unfolding versions remove_row
  versions-remove_other r [] hr h o = refl
  versions-remove_other r (s ∷ rows) hr h o = elim (Bool-cases (eq_bytes (row_key s) (row_key r))) [
    | inl e ↦
        let same = is_row_of-same t k s r h.0 hr ((eq_bytes_iff (row_key s) (row_key r)).0 e) in
        ground (arith, versions-remove_other r rows hr h.1 o)
    | inr e ↦ ground (arith, versions-remove_other r rows hr h.1 o)
  ]
