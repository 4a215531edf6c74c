-- ===== src/Parser/RoundTrip.antt =====
-- The text of the tokens of parser/src/token.rs, with blanks between them, is read back.
pub mod Statements
pub mod Create
pub mod Show
pub mod Whole
use sekv.Prelude.{
  ℕ, suc, ◌-◌, ◌+◌, ◌<◌, ◌≡◌, refl, ap, ◌∙◌, sym, Bool, true, false, not, ◌&&◌, Bool-cases, inl,
  inr, Option, none, some, List, [], ◌∷◌, ◌++◌, length, map, arith, All, if◌then◌else◌,
}
use sekv.Prelude.Bytes.{Bytes, starts_with, starts_with-append}
use sekv.Parser.Token
use sekv.Parser.Token.{
  Coord, ParseResult, ok, err, Tokenizer, Token, Literal, next, peek, skip, skip_whitespace,
  split_at,
}
use sekv.Parser.Rules
use sekv.Parser.Rules.{
  Keyword, keyword, lower, upper, dot, semicolon, ident, literal, config, create, database, debug,
  echo, exists, from, help, if_word, into, not_word, show, table, is_ident_byte,
}
use sekv.Parser.Print.{quote, NoQuote, moved, split_at-append}
use sekv.Parser.Yields.{
  Yields, IsName, StopsName, Dense, name-Dense, next-Yields, blank-Yields, ident-Yields,
  literal-Yields,
}

pub upper-Dense : (name : Keyword) (rest : Bytes) → Dense (upper name ++ rest)
unfolding upper lower
upper-Dense config rest = refl
upper-Dense create rest = refl
upper-Dense database rest = refl
upper-Dense debug rest = refl
upper-Dense Rules.delete rest = refl
upper-Dense echo rest = refl
upper-Dense exists rest = refl
upper-Dense from rest = refl
upper-Dense Rules.get rest = refl
upper-Dense help rest = refl
upper-Dense if_word rest = refl
upper-Dense into rest = refl
upper-Dense not_word rest = refl
upper-Dense Rules.put rest = refl
upper-Dense show rest = refl
upper-Dense table rest = refl

length-map : (f : ℕ → ℕ) (bytes : Bytes) → length (map f bytes) ≡ length bytes
length-map f [] = refl
length-map f (b ∷ bytes) = ap suc (length-map f bytes)

keyword-Yields :
    (name : Keyword) (rest : Bytes)
    → Yields (keyword name) (upper name ++ rest) (λ token. Unit) rest
unfolding keyword upper
keyword-Yields name rest coord =
    let seen : starts_with (upper name ++ rest) (upper name) ≡ true =
      starts_with-append (upper name) rest in
    let len : length (lower name) ≡ length (upper name) =
      sym (length-map (λ b. b - 32) (lower name)) in
    let test : (not (starts_with (upper name ++ rest) (lower name))
          && not (starts_with (upper name ++ rest) (upper name)))
        ≡ false =
      ground (arith, seen) in
    (
      record { content = upper name; coord = coord },
      moved coord (length (upper name)),
      tt,
      rw (test, len) (ap ok (split_at-append (upper name) rest coord)),
    )

semicolon-Yields : (rest : Bytes) → Yields semicolon (b';' ∷ rest) (λ token. Unit) rest
unfolding semicolon split_at starts_with
semicolon-Yields rest coord = (coord, moved coord 1, tt, refl)

dot-Yields : (rest : Bytes) → Yields dot (b'.' ∷ rest) (λ token. Unit) rest
unfolding dot split_at starts_with
dot-Yields rest coord = (record { content = b'.' ∷ []; coord = coord }, moved coord 1, tt, refl)

pub next-keyword :
    (name : Keyword) (rest : Bytes)
    → Yields (next (keyword name)) (upper name ++ rest) (λ t. Unit) rest
next-keyword name rest =
    next-Yields (keyword name) (upper name ++ rest) (λ t. Unit) rest (upper-Dense name rest)
      (keyword-Yields name rest)

pub blank_word :
    (name : Keyword) (rest : Bytes)
    → Yields (next (keyword name)) (b' ' ∷ (upper name ++ rest)) (λ t. Unit) rest
blank_word name rest =
    blank-Yields (keyword name) (upper name ++ rest) (λ t. Unit) rest (upper-Dense name rest)
      (keyword-Yields name rest)

pub next-dot : (rest : Bytes) → Yields (next dot) (b'.' ∷ rest) (λ t. Unit) rest
next-dot rest = next-Yields dot (b'.' ∷ rest) (λ t. Unit) rest refl (dot-Yields rest)

pub next-semicolon : (rest : Bytes) → Yields (next semicolon) (b';' ∷ rest) (λ t. Unit) rest
next-semicolon rest =
    next-Yields semicolon (b';' ∷ rest) (λ t. Unit) rest refl (semicolon-Yields rest)

pub blank_literal :
    (value rest : Bytes)
    → NoQuote value
    → Yields (next literal) (b' ' ∷ quote value rest) (λ t. t.value ≡ value) rest
blank_literal value rest plain =
    blank-Yields literal (quote value rest) (λ t. t.value ≡ value) rest refl
      (literal-Yields value rest plain)

pub next-ident :
    (name rest : Bytes)
    → IsName name
    → StopsName rest
    → Yields (next ident) (name ++ rest) (λ t. t.content ≡ name) rest
next-ident name rest n h =
    next-Yields ident (name ++ rest) (λ t. t.content ≡ name) rest (name-Dense name rest n)
      (ident-Yields name rest n h)

pub blank_ident :
    (name rest : Bytes)
    → IsName name
    → StopsName rest
    → Yields (next ident) (b' ' ∷ (name ++ rest)) (λ t. t.content ≡ name) rest
blank_ident name rest n h =
    blank-Yields ident (name ++ rest) (λ t. t.content ≡ name) rest (name-Dense name rest n)
      (ident-Yields name rest n h)
