-- ===== src/Rock/Lexical/Range.antt =====
-- The ranges of keys that the next keys bound.
use sekv.Prelude.{ℕ, ◌+◌, ◌<◌, ◌≡◌, refl, [], ◌∷◌, arith, Bool-cases, inl, inr, ◌==◌, if◌then◌else◌}
use sekv.Prelude.Bytes.{Bytes, IsBytes, cmp, lt_bytes, le_bytes, starts_with}
use sekv.Schema.Shard.{in_range}
use sekv.Rock.Lexical.{pop_last, add_to_last, lexical_next_boundary, lexical_next}

-- The boundary of a string, by that of its tail.
abbrev boundary_of : ℕ → Bytes → Bytes
boundary_of b [] = if b == 255 then [] else (b + 1) ∷ []
boundary_of b (c ∷ r) = b ∷ c ∷ r

boundary-cons :
    (b : ℕ) (bytes : Bytes)
    → lexical_next_boundary (b ∷ bytes) ≡ boundary_of b (lexical_next_boundary bytes)
unfolding lexical_next_boundary pop_last
boundary-cons b bytes = go (pop_last bytes)
  where
    go :
        (r : Bytes)
        → add_to_last
            (elim r as (λ _. Bytes) [ [] ↦ if b == 255 then [] else b ∷ [] | c ∷ cs ↦ b ∷ c ∷ cs ])
          ≡ boundary_of b (add_to_last r)
    go [] = elim (Bool-cases (b == 255)) [ inl e ↦ rw e refl | inr e ↦ rw e refl ]
    go (c ∷ []) = refl
    go (c ∷ d ∷ r) = refl

range-step :
    (b x : ℕ) (bytes key end : Bytes)
    → b < 256
    → x < 256
    → in_range bytes end key ≡ starts_with key bytes
    → in_range (b ∷ bytes) (boundary_of b end) (x ∷ key) ≡ starts_with (x ∷ key) (b ∷ bytes)
unfolding in_range starts_with cmp
range-step b x bytes [] [] hb hx h = elim (Bool-cases (b == 255)) [
  | inl e ↦ rw e (ground arith)
  | inr e ↦ rw e (ground arith)
]
range-step b x bytes (y ∷ key) [] hb hx h = elim (Bool-cases (b == 255)) [
  | inl e ↦ rw e (ground arith)
  | inr e ↦ rw e (ground arith)
]
range-step b x bytes key (c ∷ end) hb hx h = ground arith

nothing_below :
    (b : ℕ) (bytes end : Bytes) → in_range (b ∷ bytes) end [] ≡ starts_with [] (b ∷ bytes)
unfolding in_range starts_with cmp
nothing_below b bytes end = refl

everything : (key : Bytes) → in_range [] (lexical_next_boundary []) key ≡ starts_with key []
unfolding in_range lexical_next_boundary pop_last add_to_last starts_with cmp
everything [] = refl
everything (x ∷ key) = refl

-- The keys from a byte string to its next boundary, an empty one being none, are exactly those that begin
-- with it.
pub in_range-lexical_next_boundary :
    (bytes key : Bytes)
    → IsBytes bytes
    → IsBytes key
    → in_range bytes (lexical_next_boundary bytes) key ≡ starts_with key bytes
in_range-lexical_next_boundary [] key h k = everything key
in_range-lexical_next_boundary (b ∷ bytes) [] h k =
    nothing_below b bytes (lexical_next_boundary (b ∷ bytes))
in_range-lexical_next_boundary (b ∷ bytes) (x ∷ key) h k = rw (boundary-cons b bytes) (
    range-step b x bytes key (lexical_next_boundary bytes) h.0 k.0
      (in_range-lexical_next_boundary bytes key h.1 k.1))

-- No key stands between a key and its next one: the keys below `lexical_next` are those up to the key.
lt_bytes-lexical_next : (bytes key : Bytes) → lt_bytes key (lexical_next bytes) ≡ le_bytes key bytes
unfolding lexical_next cmp
lt_bytes-lexical_next [] [] = refl
lt_bytes-lexical_next [] (x ∷ []) = ground arith
lt_bytes-lexical_next [] (x ∷ y ∷ key) = ground arith
lt_bytes-lexical_next (b ∷ bytes) [] = refl
lt_bytes-lexical_next (b ∷ bytes) (x ∷ key) = ground (arith, lt_bytes-lexical_next bytes key)
