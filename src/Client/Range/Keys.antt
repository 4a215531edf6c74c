-- ===== src/Client/Range/Keys.antt =====
-- Which keys a scan covers.
use sekv.Prelude.{
  ◌≡◌, refl, ◌≢◌, ◌↔◌, Bool, Ordering-cases, inl, inr, true, false, ◌&&◌, Option, none, some, [],
  ◌∷◌, arith,
}
use sekv.Prelude.Bytes.{
  Bytes, IsBytes, cmp, cmp_refl, cmp_flip, cmp_trans, eq_of_cmp, lt_bytes, le_bytes, starts_with,
}
use sekv.Api.{ValueSet}
use sekv.Schema.Shard.{in_range}
use sekv.Rock.Lexical.{lexical_next_boundary}
use sekv.Rock.Lexical.Range.{in_range-lexical_next_boundary}
use sekv.Client.Range.{prefix, extract_request_range, is_entire_range_scanned, next_cursor}

-- The key is below the end of the scan.
abbrev pub below : Option Bytes → Bytes → Bool
below none key = true
below (some end) key = lt_bytes key end

in_range-below :
    (begin end key : Bytes)
    → end ≢ []
    → in_range begin end key ≡ (le_bytes begin key && below (some end) key)
unfolding in_range
in_range-below begin [] key n = absurd (n refl)
in_range-below begin (e ∷ end) key n = ground arith

le_bytes_refl : (a : Bytes) → le_bytes a a ≡ true
le_bytes_refl a = ground (arith, cmp_refl a)

le_bytes-lt : (a b : Bytes) → lt_bytes a b ≡ false → le_bytes b a ≡ true
le_bytes-lt a b h = ground (arith, cmp_flip a b, cmp_flip b a)

lt_bytes-le : (a b c : Bytes) → le_bytes a b ≡ true → le_bytes b c ≡ true → lt_bytes c a ≡ false
lt_bytes-le a b c h k = elim (Ordering-cases (cmp a b)) [
  | inl p ↦ elim (Ordering-cases (cmp b c)) [
    | inl q ↦ ground (arith, cmp_trans a b c p q, cmp_flip a c)
    | inr (inl q) ↦ let same : b ≡ c = eq_of_cmp b c q in ground (arith, cmp_flip a b)
    | inr (inr q) ↦ ground arith
  ]
  | inr (inl p) ↦ let same : a ≡ b = eq_of_cmp a b p in ground (arith, cmp_flip c b)
  | inr (inr p) ↦ ground arith
]

-- The scan of a prefix covers the keys that begin with it, where the prefix has a next boundary.
extract_request_range-prefix :
    (p key : Bytes)
    → IsBytes p
    → IsBytes key
    → lexical_next_boundary p ≢ []
    → (le_bytes (extract_request_range (prefix p)).0 key
        && below (extract_request_range (prefix p)).1 key)
      ≡ starts_with key p
unfolding extract_request_range
extract_request_range-prefix p key hp hk n = ground (
  arith,
  in_range-below p (lexical_next_boundary p) key n,
  in_range-lexical_next_boundary p key hp hk,
)

-- The scan of a prefix without a next boundary, which is empty or all 0xFF, covers no key.
extract_request_range-empty :
    (p key : Bytes)
    → lexical_next_boundary p ≡ []
    → below (extract_request_range (prefix p)).1 key ≡ false
unfolding extract_request_range cmp
extract_request_range-empty p [] e = rw e refl
extract_request_range-empty p (x ∷ key) e = rw e refl

-- A key that is longer than the last key of a batch, and begins with it, is below the next cursor, where the
-- last key has a next boundary: the next request of the scan does not cover it.
next_cursor-skips :
    (cursor : Bytes) (last : ValueSet) (key : Bytes)
    → IsBytes last.user_key
    → IsBytes key
    → lexical_next_boundary last.user_key ≢ []
    → starts_with key last.user_key ≡ true
    → le_bytes (next_cursor cursor (last ∷ [])) key ≡ false
unfolding next_cursor
next_cursor-skips cursor last key hl hk n s = ground (
  arith,
  in_range-below last.user_key (lexical_next_boundary last.user_key) key n,
  in_range-lexical_next_boundary last.user_key key hl hk,
  cmp_flip key (lexical_next_boundary last.user_key),
)

-- No key of the scan stands at or behind the end of the shard.
abbrev pub NothingBehind : Option Bytes → Bytes → Type 0
NothingBehind scan_end shard_end =
    (key : Bytes) → shard_end ≢ [] → le_bytes shard_end key ≡ true → below scan_end key ≡ false

-- The scan is done with a shard exactly where no key of the scan stands behind it; an empty end of a shard is
-- none.
pub is_entire_range_scanned_iff :
    (scan_end : Option Bytes) (shard_end : Bytes)
    → (is_entire_range_scanned scan_end shard_end ≡ true) ↔ NothingBehind scan_end shard_end
unfolding is_entire_range_scanned
is_entire_range_scanned_iff none [] = ((λ e key n l. absurd (n refl)), λ h. refl)
is_entire_range_scanned_iff none (s ∷ shard_end) = (
  (λ e. cc),
  λ h. absurd (ground (arith, h (s ∷ shard_end) (λ e. cc) (le_bytes_refl (s ∷ shard_end)))),
)
is_entire_range_scanned_iff (some e) [] = ((λ h key n l. absurd (n refl)), λ h. ground arith)
is_entire_range_scanned_iff (some e) (s ∷ shard_end) = (
  (λ h key n l. lt_bytes-le e (s ∷ shard_end) key (ground arith) l),
  λ h.
      let l : le_bytes e (s ∷ shard_end) ≡ true =
        le_bytes-lt (s ∷ shard_end) e
          (h (s ∷ shard_end) (λ e. cc) (le_bytes_refl (s ∷ shard_end))) in
      ground arith,
)
