-- ===== src/Parser/Print.antt =====
-- Statements as text, and literals in quotes: what a client of parser/src/parse.rs can write.
use sekv.Prelude.{
  ℕ, ◌+◌, ◌≡◌, refl, ◌≢◌, ap, sym, ◌∙◌, false, Bool-cases, inl, inr, some, [], ◌∷◌, ◌++◌, length,
  length-append, take_append_left, drop_append_left, arith, All, ◌==◌, if◌then◌else◌,
}
use sekv.Prelude.Bytes.{Bytes, starts_with}
use sekv.Parser.Token.{Coord, ParseResult, expect, ok, err, split_at}
use sekv.Parser.Rules.{literal, unquote, escaped}

-- a byte within quotes, with a backslash before a backslash and in place of a line's end and a tab
unfoldable pub quote_byte : ℕ → Bytes
quote_byte b =
    if b == b'\\'
    then b'\\' ∷ b'\\' ∷ []
    else if b == b'\n'
    then b'\\' ∷ b'n' ∷ []
    else if b == b'\t'
    then b'\\' ∷ b't' ∷ []
    else if b == b'\r'
    then b'\\' ∷ b'r' ∷ []
    else b ∷ []

abbrev quote_bytes : Bytes → Bytes → Bytes
quote_bytes [] rest = b'"' ∷ rest
quote_bytes (b ∷ value) rest = quote_byte b ++ quote_bytes value rest

-- No quote stands among the bytes: the code has no escape for it.
abbrev pub NoQuote : Bytes → Type 0
NoQuote value = All (λ b. b ≢ b'"') value

unquote-plain :
    (coord : Coord) (b : ℕ) (input : Bytes) (r : Bytes × ℕ)
    → b ≢ b'\\'
    → b ≢ b'"'
    → unquote coord input ≡ ok r
    → unquote coord (b ∷ input) ≡ ok (b ∷ r.0, 1 + r.1)
unfolding unquote
unquote-plain coord b [] r n m h =
    let bad : Path (ParseResult (Bytes × ℕ)) (err (expect coord)) (ok r) = h in absurd cc
unquote-plain coord b (e ∷ input) r n m h =
    let no_escape : (b == b'\\') ≡ false = ground arith in
    let no_quote : (b == b'"') ≡ false = ground arith in rw (unquote, no_escape, no_quote, h) refl

unquote-escape :
    (coord : Coord) (e v : ℕ) (input : Bytes) (r : Bytes × ℕ)
    → escaped e ≡ some v
    → unquote coord input ≡ ok r
    → unquote coord (b'\\' ∷ e ∷ input) ≡ ok (v ∷ r.0, 2 + r.1)
unfolding unquote
unquote-escape coord e v input r k h = rw (unquote, k, h) refl

unquote-quote_byte :
    (coord : Coord) (b : ℕ) (input : Bytes) (r : Bytes × ℕ)
    → b ≢ b'"'
    → unquote coord input ≡ ok r
    → unquote coord (quote_byte b ++ input) ≡ ok (b ∷ r.0, length (quote_byte b) + r.1)
unfolding quote_byte escaped
unquote-quote_byte coord b input r m h = elim (Bool-cases (b == b'\\')) [
  | inl e ↦
      let same : b ≡ b'\\' = ground arith in
      rw (quote_byte, e) (unquote-escape coord b'\\' b input r (rw same refl) h)
  | inr e ↦ elim (Bool-cases (b == b'\n')) [
    | inl f ↦
        let same : b ≡ b'\n' = ground arith in
        rw (quote_byte, e, f) (unquote-escape coord b'n' b input r (rw same refl) h)
    | inr f ↦ elim (Bool-cases (b == b'\t')) [
      | inl g ↦
          let same : b ≡ b'\t' = ground arith in
          rw (quote_byte, e, f, g) (unquote-escape coord b't' b input r (rw same refl) h)
      | inr g ↦ elim (Bool-cases (b == b'\r')) [
        | inl i ↦
            let same : b ≡ b'\r' = ground arith in
            rw (quote_byte, e, f, g, i) (unquote-escape coord b'r' b input r (rw same refl) h)
        | inr i ↦ rw (quote_byte, e, f, g, i) (unquote-plain coord b input r (ground arith) m h)
      ]
    ]
  ]
]

unquote-quote_bytes :
    (coord : Coord) (value rest : Bytes)
    → NoQuote value
    → unquote coord (quote_bytes value rest) ≡ ok (value, length (quote_bytes value []))
unfolding unquote
unquote-quote_bytes coord [] [] a = refl
unquote-quote_bytes coord [] (e ∷ rest) a = refl
unquote-quote_bytes coord (b ∷ value) rest a =
    unquote-quote_byte coord b (quote_bytes value rest) (value, length (quote_bytes value [])) a.0
      (unquote-quote_bytes coord value rest a.1)
    ∙ ap (λ n. ok (b ∷ value, n)) (sym (length-append (quote_byte b) (quote_bytes value [])))

-- A literal in quotes, followed by `rest`.
abbrev pub quote : Bytes → Bytes → Bytes
quote value rest = b'"' ∷ quote_bytes value rest

append_assoc : (a b c : Bytes) → (a ++ b) ++ c ≡ a ++ (b ++ c)
append_assoc [] b c = refl
append_assoc (x ∷ a) b c = ap (λ t. x ∷ t) (append_assoc a b c)

quote_bytes-append : (value rest : Bytes) → quote_bytes value rest ≡ quote_bytes value [] ++ rest
quote_bytes-append [] rest = refl
quote_bytes-append (b ∷ value) rest =
    ap (λ x. quote_byte b ++ x) (quote_bytes-append value rest)
    ∙ sym (append_assoc (quote_byte b) (quote_bytes value []) rest)

-- The tokenizer after a token of one line with no blanks before it, which `split_at` cuts.
abbrev pub moved : Coord → ℕ → Coord
moved coord n = record { row = coord.row + n; col = coord.col; pos = coord.pos + n }

pub split_at-append :
    (a rest : Bytes) (coord : Coord)
    → split_at (length a) (record { input = a ++ rest; coord = coord }) ≡ (
      record { content = a; coord = coord },
      record { input = rest; coord = moved coord (length a) },
    )
unfolding split_at
split_at-append a rest coord =
    rw (take_append_left a rest (length a) refl, drop_append_left a rest (length a) refl) refl

-- A literal in quotes is read back as the bytes that it was written for, to the closing quote and no further,
-- whatever follows. No byte of it is a quote.
pub literal-quote :
    (value rest : Bytes) (coord : Coord)
    → NoQuote value
    → literal (record { input = quote value rest; coord = coord })
      ≡ ok (
        record { value = value; content = quote value []; coord = coord },
        record { input = rest; coord = moved coord (length (quote value [])) },
      )
unfolding literal split_at starts_with
literal-quote value rest coord a =
    let one : 1 + length (quote_bytes value []) ≡ length (quote value []) = omega arith in
    rw (unquote-quote_bytes coord value rest a, one)
      (ap (λ r. ok (record { value = value; content = r.0.content; coord = r.0.coord }, r.1))
        (ap (λ t. split_at (length (quote value [])) (record { input = t; coord = coord }))
            (ap (λ t. b'"' ∷ t) (quote_bytes-append value rest))
          ∙ split_at-append (quote value []) rest coord))
