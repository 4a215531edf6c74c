-- ===== src/Parser/Rules.antt =====
-- The token rules of parser/src/token.rs. A keyword is its lower or its upper case letters, whatever follows them.
use sekv.Prelude.{
  ℕ, ◌+◌, ◌-◌, Bool, true, false, not, ◌&&◌, ◌||◌, Option, none, some, [], ◌∷◌, map, length, drop,
  ◌==◌, leb, if◌then◌else◌,
}
use sekv.Prelude.Bytes.{Bytes, starts_with, is_empty}
use sekv.Parser.Utf8.{is_utf8}
use sekv.Parser.Token.{
  Coord, ParseResult, ok, err, ◌>>=◌, unknown, expect, invalid_encoding, unexpected_eos, TokenRule,
  Token, Literal, split_at, split_when, is_blank,
}

pub data Keyword : Type 0 where
  config create database debug delete echo exists from : Keyword
  get help if_word into not_word put show table : Keyword

-- the keyword's name in lower case
unfoldable pub lower : Keyword → Bytes
lower config = b'c' ∷ b'o' ∷ b'n' ∷ b'f' ∷ b'i' ∷ b'g' ∷ []
lower create = b'c' ∷ b'r' ∷ b'e' ∷ b'a' ∷ b't' ∷ b'e' ∷ []
lower database = b'd' ∷ b'a' ∷ b't' ∷ b'a' ∷ b'b' ∷ b'a' ∷ b's' ∷ b'e' ∷ []
lower debug = b'd' ∷ b'e' ∷ b'b' ∷ b'u' ∷ b'g' ∷ []
lower delete = b'd' ∷ b'e' ∷ b'l' ∷ b'e' ∷ b't' ∷ b'e' ∷ []
lower echo = b'e' ∷ b'c' ∷ b'h' ∷ b'o' ∷ []
lower exists = b'e' ∷ b'x' ∷ b'i' ∷ b's' ∷ b't' ∷ b's' ∷ []
lower from = b'f' ∷ b'r' ∷ b'o' ∷ b'm' ∷ []
lower get = b'g' ∷ b'e' ∷ b't' ∷ []
lower help = b'h' ∷ b'e' ∷ b'l' ∷ b'p' ∷ []
lower if_word = b'i' ∷ b'f' ∷ []
lower into = b'i' ∷ b'n' ∷ b't' ∷ b'o' ∷ []
lower not_word = b'n' ∷ b'o' ∷ b't' ∷ []
lower put = b'p' ∷ b'u' ∷ b't' ∷ []
lower show = b's' ∷ b'h' ∷ b'o' ∷ b'w' ∷ []
lower table = b't' ∷ b'a' ∷ b'b' ∷ b'l' ∷ b'e' ∷ []

unfoldable pub upper : Keyword → Bytes
upper name = map (λ b. b - 32) (lower name)

-- `keyword!`
unfoldable pub keyword : Keyword → TokenRule Token
keyword name tokenizer =
    if not (starts_with tokenizer.input (lower name))
      && not (starts_with tokenizer.input (upper name))
    then err (expect tokenizer.coord)
    else ok (split_at (length (lower name)) tokenizer)

-- `symbol!(Dot, b".")`
unfoldable pub dot : TokenRule Token
dot tokenizer =
    if starts_with tokenizer.input (b'.' ∷ [])
    then ok (split_at 1 tokenizer)
    else err (expect tokenizer.coord)

-- The end of the input is a semicolon too.
unfoldable pub semicolon : TokenRule Coord
semicolon tokenizer =
    if not (starts_with tokenizer.input (b';' ∷ [])) && not (is_empty tokenizer.input)
    then err (expect tokenizer.coord)
    else if is_empty tokenizer.input
    then ok (tokenizer.coord, tokenizer)
    else ok (tokenizer.coord, (split_at 1 tokenizer).1)

abbrev between : ℕ → ℕ → ℕ → Bool
between lo hi b = leb lo b && leb b hi

abbrev pub is_ident_byte : ℕ → Bool
is_ident_byte b =
    between b'a' b'z' b
    || (between b'A' b'Z' b || ((b == b'_') || ((b == b'-') || between b'0' b'9' b)))

unfoldable pub ident : TokenRule Token
ident tokenizer =
    let r = split_when (λ b. not (is_ident_byte b)) tokenizer in
    if is_empty r.0.content
    then err (expect r.0.coord)
    else if not (is_utf8 r.0.content)
    then err (invalid_encoding r.0.coord)
    else ok r

unfoldable pub escaped : ℕ → Option ℕ
escaped c =
    if c == b'n'
    then some b'\n'
    else if c == b't'
    then some b'\t'
    else if c == b'r'
    then some b'\r'
    else if c == b' '
    then some b' '
    else if c == b'\\'
    then some b'\\'
    else none

-- The bytes that a literal in quotes stands for, and how many bytes it takes, from the byte after the quote on.
unfoldable pub unquote : Coord → Bytes → ParseResult (Bytes × ℕ)
unquote coord [] = err (expect coord)
unquote coord (c ∷ []) =
    if c == b'\\' then err unexpected_eos else if c == b'"' then ok ([], 1) else err (expect coord)
unquote coord (c ∷ e ∷ input) = elim (c == b'\\') [
  | true ↦ elim (escaped e) [
    | none ↦ err (unknown coord)
    | some v ↦ unquote coord input >>= λ r. ok (v ∷ r.0, 2 + r.1)
  ]
  | false ↦ elim (c == b'"') [
    | true ↦ ok ([], 1)
    | false ↦ unquote coord (e ∷ input) >>= λ r. ok (c ∷ r.0, 1 + r.1)
  ]
]

abbrev pub is_space : ℕ → Bool
is_space b = is_blank b || (b == b'\n')

unfoldable pub literal : TokenRule Literal
literal tokenizer =
    if starts_with tokenizer.input (b'"' ∷ [])
    then (do
      quoted ← unquote tokenizer.coord (drop 1 tokenizer.input)
      let r = split_at (1 + quoted.1) tokenizer
      ok (record { value = quoted.0; content = r.0.content; coord = r.0.coord }, r.1))
    else (let r = split_when is_space tokenizer in
        if is_empty r.0.content
        then err (expect r.0.coord)
        else ok (record { value = r.0.content; content = r.0.content; coord = r.0.coord }, r.1))
