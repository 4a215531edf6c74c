-- ===== src/Parser/Yields.antt =====
-- What the token rules of parser/src/token.rs make of input that begins with the token's text.
use sekv.Prelude.{
  ℕ, ◌+◌, ◌<◌, ◌≡◌, refl, Bool, true, false, not, [], ◌∷◌, ◌++◌, length, take_append_left,
  drop_append_left, arith, All, ◌==◌,
}
use sekv.Prelude.Bytes.{Bytes, is_empty}
use sekv.Parser.Utf8.{is_utf8_ascii}
use sekv.Parser.Token.{
  Coord, ok, TokenRule, split_when, prefix_len, skip_whitespace, next, skip, is_blank,
}
use sekv.Parser.Rules.{ident, literal, is_ident_byte, is_space}
use sekv.Parser.Print.{quote, NoQuote, literal-quote, moved}

-- From any position, the rule reads a value of which `P` holds and leaves `rest`.
abbrev pub Yields : {A : Type 0} → TokenRule A → Bytes → (A → Type 0) → Bytes → Type 0
Yields {A = A} rule input P rest =
    (coord : Coord)
    → (a : A) × (coord' : Coord) × P a
      × (rule (record { input = input; coord = coord })
          ≡ ok (a, record { input = rest; coord = coord' }))

-- A name of a database, a table or a property.
abbrev pub IsName : Bytes → Type 0
IsName name = (is_empty name ≡ false) × All (λ b. is_ident_byte b ≡ true) name

-- Nothing that stands behind a name belongs to it.
abbrev pub StopsName : Bytes → Type 0
StopsName [] = Unit
StopsName (b ∷ rest) = is_ident_byte b ≡ false

abbrev not_ident : ℕ → Bool
not_ident b = not (is_ident_byte b)

prefix_len-name :
    (name rest : Bytes)
    → All (λ b. is_ident_byte b ≡ true) name
    → StopsName rest
    → prefix_len not_ident (name ++ rest) ≡ length name
unfolding prefix_len
prefix_len-name [] [] a h = refl
prefix_len-name [] (b ∷ rest) a h = rw h refl
prefix_len-name (b ∷ name) rest a h = rw (a.0, prefix_len-name name rest a.1 h) (omega arith)

is_ident_byte_ascii : (b : ℕ) → is_ident_byte b ≡ true → b < 0x80
is_ident_byte_ascii b h = ground arith

ascii-name : (name : Bytes) → All (λ b. is_ident_byte b ≡ true) name → All (λ b. b < 0x80) name
ascii-name [] a = tt
ascii-name (b ∷ name) a = (is_ident_byte_ascii b a.0, ascii-name name a.1)

-- A name is read to its end.
pub ident-Yields :
    (name rest : Bytes)
    → IsName name
    → StopsName rest
    → Yields ident (name ++ rest) (λ token. token.content ≡ name) rest
unfolding ident split_when
ident-Yields name rest n h coord = (
  record { content = name; coord = coord },
  record { row = coord.row; col = coord.col + length name; pos = coord.pos + length name },
  refl,
  rw
      (
        prefix_len-name name rest n.1 h,
        take_append_left name rest (length name) refl,
        drop_append_left name rest (length name) refl,
        n.0,
        is_utf8_ascii name (ascii-name name n.1),
      )
      refl,
)

pub literal-Yields :
    (value rest : Bytes)
    → NoQuote value
    → Yields literal (quote value rest) (λ token. token.value ≡ value) rest
literal-Yields value rest a coord = (
  record { value = value; content = quote value []; coord = coord },
  moved coord (length (quote value [])),
  refl,
  literal-quote value rest coord a,
)

-- No blank stands first.
abbrev pub Dense : Bytes → Type 0
Dense [] = Unit
Dense (b ∷ input) = is_space b ≡ false

pub skip-Dense :
    (input : Bytes) (coord : Coord)
    → Dense input
    → skip input coord ≡ record { input = input; coord = coord }
unfolding skip
skip-Dense [] coord h = refl
skip-Dense (b ∷ input) coord h =
    let line : (b == b'\n') ≡ false = ground (arith, h) in
    let blank : is_blank b ≡ false = ground (arith, h) in rw (skip, line, blank) refl

pub name-Dense : (name rest : Bytes) → IsName name → Dense (name ++ rest)
name-Dense [] rest n = absurd (ground (arith, n.0))
name-Dense (b ∷ name) rest n = ground (arith, n.1.0)

module _ {A : Type 0} (rule : TokenRule A) (input : Bytes) (P : A → Type 0) (rest : Bytes)
    (dense : Dense input) (h : Yields rule input P rest) where
  -- a token where the last one ended, and one after a blank
  pub next-Yields : Yields (next rule) input P rest
  unfolding next skip_whitespace
  next-Yields coord = let r = h coord in (r.0, r.1, r.2, rw (skip-Dense input coord dense) r.3)

  pub blank-Yields : Yields (next rule) (b' ' ∷ input) P rest
  unfolding next skip_whitespace skip
  blank-Yields coord =
      let c : Coord = record { row = coord.row; col = coord.col + 1; pos = coord.pos } in
      let r = h c in (r.0, r.1, r.2, rw (skip-Dense input c dense) r.3)
