-- ===== src/Parser/Fuel.antt =====
-- The parser of parser/src/parse.rs ends: each `DEBUG` takes input, so that the fuel of `parse` is enough.
use sekv.Prelude.{
  ℕ, zero, suc, ◌+◌, ◌<◌, ◌≤◌, ◌≡◌, refl, ◌≢◌, Bool, true, false, not, ◌&&◌, Bool-cases, inl, inr,
  Option, none, some, [], ◌∷◌, length, length-drop, arith, ◌==◌, if◌then◌else◌,
}
use mathlib.Core.Path.{subst}
use sekv.Parser.Rules
use sekv.Prelude.Bytes.{Bytes, starts_with}
use sekv.Parser.Token
use sekv.Parser.Token.{
  Coord, ParseError, ParseResult, ok, err, out_of_fuel, Tokenizer, TokenRule, Token, Literal, next,
  peek, skip, skip_whitespace, has_more, split_at, split_when,
}
use sekv.Parser.Rules.{
  echo, Keyword, keyword, lower, upper, dot, semicolon, ident, literal, unquote, escaped, is_space,
  debug, config,
}
use sekv.Parser.Statement.{
  Statement, or_else, statement, parse_on, parse, parse_debug_stmt, after_debug,
}
use sekv.Parser.Ends.{
  Ends, ok-Ends, unexpected-Ends, eos-Ends, err-Ends, then-Ends, if-Ends, keyword-Ends,
}
use sekv.Parser.Ends.Statements.{
  get-Ends, delete-Ends, put-Ends, echo-Ends, config-Ends, create-Ends, show-Ends, help-Ends,
}

pick-Ends :
    {A : Type 0} (b : Bool) (p q : TokenRule A) (t : Tokenizer)
    → Ends (p t)
    → Ends (q t)
    → Ends ((if b then p else q) t)
pick-Ends true p q t h k = h
pick-Ends false p q t h k = k

or-Ends :
    (name : Keyword) (this others : TokenRule Statement) (t : Tokenizer)
    → Ends (this t)
    → Ends (others t)
    → Ends (or_else name this others t)
or-Ends name this others t = pick-Ends (peek (keyword name) t) this others t

-- A keyword takes input.
skip_shorter :
    (input : Bytes) (coord : Coord) → length (Tokenizer.input (skip input coord)) ≤ length input
unfolding skip
skip_shorter [] coord = omega arith
skip_shorter (b ∷ input) coord = elim (Bool-cases (b == b'\n')) [
  | inl p ↦
      let below = skip_shorter input (record { row = coord.row + 1; col = 1; pos = coord.pos }) in
      rw (skip, p) (omega (arith, below))
  | inr p ↦ elim (Bool-cases (Token.is_blank b)) [
    | inl q ↦
        let below =
          skip_shorter input (record { row = coord.row; col = coord.col + 1; pos = coord.pos }) in
        rw (skip, p, q) (omega (arith, below))
    | inr q ↦ rw (skip, p, q) (omega arith)
  ]
]

module _ (coord : Coord) (t' : Tokenizer) (a : Token) where
  debug_takes :
      (input : Bytes)
      → keyword debug (record { input = input; coord = coord }) ≡ ok (a, t')
      → length t'.input < length input
  unfolding keyword lower upper split_at starts_with
  debug_takes [] h = absurd cc
  debug_takes (b ∷ input) h =
      elim (Bool-cases (
        not (starts_with (b ∷ input) (lower debug))
        && not (starts_with (b ∷ input) (upper debug)))) [
          | inl p ↦
              let refused : Path (ParseResult (Token × Tokenizer)) (err (Token.expect coord))
                  (ok (a, t')) =
                rw p at h in
              absurd cc
          | inr p ↦
              let cut : Path (ParseResult (Token × Tokenizer))
                  (ok (split_at 5 (record { input = b ∷ input; coord = coord }))) (ok (a, t')) =
                rw p at h in
              let left : (split_at 5 (record { input = b ∷ input; coord = coord })).1 ≡ t' = cc in
              rw (← left) (omega (arith, length-drop 5 (b ∷ input)))
        ]

behind : (stmt : Option Statement) (t : Tokenizer) → Ends (after_debug stmt t)
behind none t = eos-Ends
behind (some s) t = ok-Ends _

module _ (inner : TokenRule (Option Statement)) (t : Tokenizer)
    (below : (t' : Tokenizer) → length t'.input < length t.input → Ends (inner t')) where
  debug-Ends : Ends (parse_debug_stmt inner t)
  unfolding parse_debug_stmt next skip_whitespace
  debug-Ends = by_word (keyword debug (skip_whitespace t)) refl
    where
      by_word :
          (r : ParseResult (Token × Tokenizer))
          → keyword debug (skip_whitespace t) ≡ r
          → Ends (Token.◌>>=◌ r (λ r. Token.◌>>=◌ (inner r.1) (λ s. after_debug s.0 s.1)))
      by_word (ok (a, t')) h =
          let takes =
            debug_takes (Tokenizer.coord (skip_whitespace t)) t' a
              (Tokenizer.input (skip_whitespace t)) h in
          then-Ends _ _ (below t' (omega (arith, takes, skip_shorter t.input t.coord)))
            (λ s. behind s.0 s.1)
      by_word (err e) h =
          let word_ends : Ends {A = Token × Tokenizer} (err e) =
            subst (λ r. Ends r) h (keyword-Ends debug (skip_whitespace t)) in
          err-Ends e word_ends

  statement-Ends : Ends (statement inner t)
  statement-Ends = or-Ends echo _ _ t (echo-Ends t) (
      or-Ends config _ _ t (config-Ends t) (
        or-Ends Rules.create _ _ t (create-Ends t) (
          or-Ends Rules.get _ _ t (get-Ends t) (
            or-Ends Rules.put _ _ t (put-Ends t) (
              or-Ends Rules.delete _ _ t (delete-Ends t) (
                or-Ends Rules.show _ _ t (show-Ends t) (
                  or-Ends Rules.help _ _ t (help-Ends t)
                    (or-Ends debug _ _ t debug-Ends (unexpected-Ends t.coord)))))))))

-- A unit of fuel for each byte and one more is enough.
parse_on-Ends : (fuel : ℕ) (t : Tokenizer) → length t.input < fuel → Ends (parse_on fuel t)
unfolding parse_on has_more skip_whitespace
parse_on-Ends zero t h = absurd (omega arith)
parse_on-Ends (suc fuel) t h =
    if-Ends _ _ _
      (then-Ends _ _
        (statement-Ends (parse_on fuel) (skip t.input t.coord)
          (λ t' below. parse_on-Ends fuel t' (omega (arith, below, skip_shorter t.input t.coord))))
        (λ r. ok-Ends _))
      (ok-Ends _)

-- No input makes `parse` run out of fuel: it returns a statement, nothing, or an error of the source.
pub parse-Ends : (input : Bytes) → parse input ≢ err out_of_fuel
unfolding parse Token.new
parse-Ends input =
    then-Ends _ _ (parse_on-Ends (suc (length input)) (Token.new input) (omega arith))
      (λ r. ok-Ends _)
