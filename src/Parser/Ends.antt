-- ===== src/Parser/Ends.antt =====
-- Each token rule of parser/src/token.rs returns a token or an error of its own.
pub mod Statements
use sekv.Prelude.{
  ℕ, zero, suc, ◌+◌, ◌<◌, ◌≤◌, ◌≡◌, refl, ◌≢◌, ap, Bool, true, false, not, ◌&&◌, Bool-cases, inl,
  inr, Option, none, some, [], ◌∷◌, length, length-drop, arith, ◌==◌, if◌then◌else◌,
}
use mathlib.Core.Path.{subst}
use sekv.Parser.Rules
use sekv.Prelude.Bytes.{Bytes, starts_with}
use sekv.Parser.Token
use sekv.Parser.Token.{
  Coord, ParseError, ParseResult, ok, err, out_of_fuel, Tokenizer, TokenRule, Token, Literal, next,
  peek, skip, skip_whitespace, has_more, split_at, split_when,
}
use sekv.Parser.Rules.{
  echo, Keyword, keyword, lower, upper, dot, semicolon, ident, literal, unquote, escaped, is_space,
  debug, config,
}
use sekv.Parser.Statement.{
  Statement, or_else, statement, parse_on, parse, parse_debug_stmt, after_debug,
  parse_echo_statement, parse_config_stmt, parse_create_stmt, parse_get_stmt, parse_put_stmt,
  parse_delete_stmt, parse_show_stmt, parse_help_stmt, try_parse_if_not_exists,
}

-- A result that is not for want of fuel.
abbrev pub Ends : {A : Type 0} → ParseResult A → Type 0
Ends r = r ≢ err out_of_fuel

pub ok-Ends : {A : Type 0} (a : A) → Ends (ok a)
ok-Ends a = λ e. cc

expect-Ends : {A : Type 0} (coord : Coord) → Ends {A = A} (err (Token.expect coord))
expect-Ends coord = λ e. cc

encoding-Ends : {A : Type 0} (coord : Coord) → Ends {A = A} (err (Token.invalid_encoding coord))
encoding-Ends coord = λ e. cc

pub token-Ends : {A : Type 0} (coord : Coord) → Ends {A = A} (err (Token.unexpected_token coord))
token-Ends coord = λ e. cc

pub unexpected-Ends : {A : Type 0} (coord : Coord) → Ends {A = A} (err (Token.unexpected coord))
unexpected-Ends coord = λ e. cc

pub eos-Ends : {A : Type 0} → Ends {A = A} (err Token.unexpected_eos)
eos-Ends = λ e. cc

abbrev pub AlwaysEnds : {A : Type 0} → TokenRule A → Type 0
AlwaysEnds rule = (tokenizer : Tokenizer) → Ends (rule tokenizer)

pub err-Ends : {A B : Type 0} (e : ParseError) → Ends {A = A} (err e) → Ends {A = B} (err e)
err-Ends e h = λ q. h (let same : e ≡ out_of_fuel = cc in ap (λ x. err x) same)

pub then-Ends :
    {A B : Type 0} (r : ParseResult A) (k : A → ParseResult B)
    → Ends r
    → ((a : A) → Ends (k a))
    → Ends (Token.◌>>=◌ r k)
then-Ends (ok a) k h g = g a
then-Ends (err e) k h g = err-Ends e h

pub if-Ends :
    {A : Type 0} (b : Bool) (x y : ParseResult A) → Ends x → Ends y → Ends (if b then x else y)
if-Ends true x y h k = h
if-Ends false x y h k = k

pub keyword-Ends : (name : Keyword) → AlwaysEnds (keyword name)
unfolding keyword
keyword-Ends name t = if-Ends _ _ _ (expect-Ends _) (ok-Ends _)

pub dot-Ends : AlwaysEnds dot
unfolding dot
dot-Ends t = if-Ends _ _ _ (ok-Ends _) (expect-Ends _)

pub semicolon-Ends : AlwaysEnds semicolon
unfolding semicolon
semicolon-Ends t = if-Ends _ _ _ (expect-Ends _) (if-Ends _ _ _ (ok-Ends _) (ok-Ends _))

pub ident-Ends : AlwaysEnds ident
unfolding ident
ident-Ends t = if-Ends _ _ _ (expect-Ends _) (if-Ends _ _ _ (encoding-Ends _) (ok-Ends _))

unescape-Ends :
    (coord : Coord) (v : Option ℕ) (rest : ParseResult (Bytes × ℕ))
    → Ends rest
    → Ends (elim v as (λ _. ParseResult (Bytes × ℕ)) [
      | none ↦ err (Token.unknown coord)
      | some v ↦ Token.◌>>=◌ rest λ r. ok (v ∷ r.0, 2 + r.1)
    ])
unescape-Ends coord none rest h = λ e. cc
unescape-Ends coord (some v) rest h = then-Ends rest _ h (λ r. ok-Ends _)

unquote-Ends : (coord : Coord) (input : Bytes) → Ends (unquote coord input)
unfolding unquote
unquote-Ends coord [] = expect-Ends coord
unquote-Ends coord (c ∷ []) = if-Ends _ _ _ eos-Ends (if-Ends _ _ _ (ok-Ends _) (expect-Ends _))
unquote-Ends coord (c ∷ e ∷ input) = elim (Bool-cases (c == b'\\')) [
  | inl p ↦
      rw (unquote, p)
        (unescape-Ends coord (escaped e) (unquote coord input) (unquote-Ends coord input))
  | inr p ↦ elim (Bool-cases (c == b'"')) [
    | inl q ↦ rw (unquote, p, q) (ok-Ends _)
    | inr q ↦ rw (unquote, p, q) (then-Ends _ _ (unquote-Ends coord (e ∷ input)) (λ r. ok-Ends _))
  ]
]

pub literal-Ends : AlwaysEnds literal
unfolding literal
literal-Ends t =
    if-Ends _ _ _ (then-Ends _ _ (unquote-Ends _ _) (λ r. ok-Ends _))
      (if-Ends _ _ _ (expect-Ends _) (ok-Ends _))

pub next-Ends : {A : Type 0} (rule : TokenRule A) → AlwaysEnds rule → AlwaysEnds (next rule)
unfolding next
next-Ends rule h t = h (skip_whitespace t)
