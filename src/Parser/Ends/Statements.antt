-- ===== src/Parser/Ends/Statements.antt =====
-- Each rule of parser/src/parse.rs but the one for `DEBUG` returns a statement or an error of its own.
use sekv.Prelude.{Bool, true, false, if◌then◌else◌}
use sekv.Parser.Rules
use sekv.Parser.Token
use sekv.Parser.Token.{
  Coord, ParseError, ParseResult, ok, err, out_of_fuel, Tokenizer, TokenRule, Token, Literal, next,
  peek, skip, skip_whitespace, has_more, split_at, split_when,
}
use sekv.Parser.Rules.{
  echo, Keyword, keyword, lower, upper, dot, semicolon, ident, literal, unquote, escaped, is_space,
  debug, config,
}
use sekv.Parser.Statement.{
  parse_echo_statement, parse_config_stmt, parse_create_stmt, parse_get_stmt, parse_put_stmt,
  parse_delete_stmt, parse_show_stmt, parse_help_stmt, try_parse_if_not_exists,
}
use sekv.Parser.Ends.{
  Ends, AlwaysEnds, ok-Ends, token-Ends, then-Ends, keyword-Ends, dot-Ends, semicolon-Ends,
  ident-Ends, literal-Ends, next-Ends,
}

-- the steps that the statements' rules are made of
module _ {A B : Type 0} (k : A × Tokenizer → ParseResult B) (rule : TokenRule A)
    (t : Tokenizer) where
  step-Ends :
      AlwaysEnds rule → ((a : A × Tokenizer) → Ends (k a)) → Ends (Token.◌>>=◌ (next rule t) k)
  step-Ends h g = then-Ends _ _ (next-Ends rule h t) g

pub get-Ends : AlwaysEnds parse_get_stmt
unfolding parse_get_stmt
get-Ends t = step-Ends _ _ _ (keyword-Ends _) λ a. step-Ends _ _ _ literal-Ends λ a.
    step-Ends _ _ _ (keyword-Ends _) λ a.
      step-Ends _ _ _ ident-Ends
        λ a. step-Ends _ _ _ dot-Ends λ a. step-Ends _ _ _ ident-Ends λ a. ok-Ends _

pub delete-Ends : AlwaysEnds parse_delete_stmt
unfolding parse_delete_stmt
delete-Ends t = step-Ends _ _ _ (keyword-Ends _) λ a. step-Ends _ _ _ literal-Ends λ a.
    step-Ends _ _ _ (keyword-Ends _) λ a.
      step-Ends _ _ _ ident-Ends
        λ a. step-Ends _ _ _ dot-Ends λ a. step-Ends _ _ _ ident-Ends λ a. ok-Ends _

pub put-Ends : AlwaysEnds parse_put_stmt
unfolding parse_put_stmt
put-Ends t = step-Ends _ _ _ (keyword-Ends _) λ a. step-Ends _ _ _ literal-Ends λ a.
    step-Ends _ _ _ literal-Ends λ a. step-Ends _ _ _ (keyword-Ends _) λ a.
      step-Ends _ _ _ ident-Ends
        λ a. step-Ends _ _ _ dot-Ends λ a. step-Ends _ _ _ ident-Ends λ a. ok-Ends _

pub echo-Ends : AlwaysEnds parse_echo_statement
unfolding parse_echo_statement
echo-Ends t =
    step-Ends _ _ _ (keyword-Ends _)
      λ a. step-Ends _ _ _ literal-Ends λ a. step-Ends _ _ _ semicolon-Ends λ a. ok-Ends _

pub config-Ends : AlwaysEnds parse_config_stmt
unfolding parse_config_stmt
config-Ends t = step-Ends _ _ _ (keyword-Ends _) λ a.
    step-Ends _ _ _ literal-Ends
      λ a. step-Ends _ _ _ literal-Ends λ a. step-Ends _ _ _ semicolon-Ends λ a. ok-Ends _

either-Ends :
    {A : Type 0} (b : Bool) (p q : TokenRule A)
    → AlwaysEnds p
    → AlwaysEnds q
    → AlwaysEnds (if b then p else q)
either-Ends true p q h k = h
either-Ends false p q h k = k

try-Ends : AlwaysEnds try_parse_if_not_exists
unfolding try_parse_if_not_exists
try-Ends t =
    either-Ends _ _ _
      (λ t.
        step-Ends _ _ _ (keyword-Ends _) λ a.
          step-Ends _ _ _ (keyword-Ends _) λ a. step-Ends _ _ _ (keyword-Ends _) λ a. ok-Ends _)
      (λ t. ok-Ends _) t

pub create-Ends : AlwaysEnds parse_create_stmt
unfolding parse_create_stmt
create-Ends t = step-Ends _ _ _ (keyword-Ends _) λ a.
    either-Ends (peek (keyword Rules.database) a.1) _ _
      (λ t. step-Ends _ _ _ (keyword-Ends _) λ a.
        then-Ends _ _ (try-Ends _)
          λ a. step-Ends _ _ _ ident-Ends λ a. step-Ends _ _ _ semicolon-Ends λ a. ok-Ends _)
      (either-Ends (peek (keyword Rules.table) a.1) _ _
        (λ t. step-Ends _ _ _ (keyword-Ends _) λ a. then-Ends _ _ (try-Ends _) λ a.
          step-Ends _ _ _ ident-Ends λ a.
            step-Ends _ _ _ dot-Ends
              λ a. step-Ends _ _ _ ident-Ends λ a. step-Ends _ _ _ semicolon-Ends λ a. ok-Ends _)
        (λ t. token-Ends t.coord))
      _

pub show-Ends : AlwaysEnds parse_show_stmt
unfolding parse_show_stmt
show-Ends t = step-Ends _ _ _ (keyword-Ends _) λ a. step-Ends _ _ _ ident-Ends λ a.
    then-Ends _ _
      (either-Ends _ _ _
        (λ t. step-Ends _ _ _ (keyword-Ends _) λ a. step-Ends _ _ _ ident-Ends λ a. ok-Ends _)
        (λ t. ok-Ends _) _)
      λ a. step-Ends _ _ _ semicolon-Ends λ a. ok-Ends _

pub help-Ends : AlwaysEnds parse_help_stmt
unfolding parse_help_stmt
help-Ends t = step-Ends _ _ _ (keyword-Ends _) λ a.
    then-Ends _ _
      (either-Ends _ _ _ (λ t. step-Ends _ _ _ ident-Ends λ a. ok-Ends _) (λ t. ok-Ends _) _)
      λ a. step-Ends _ _ _ semicolon-Ends λ a. ok-Ends _
