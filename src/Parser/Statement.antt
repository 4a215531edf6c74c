-- ===== src/Parser/Statement.antt =====
-- parser/src/parse.rs and the statements of parser/src/ast.rs. Text is bytes: `from_utf8_lossy` of the message of
-- an `ECHO` is the message, since the input is a `str` and a literal is cut at ASCII bytes. Each `DEBUG` before a
-- statement costs a unit of fuel.
use sekv.Prelude.{ℕ, zero, suc, Bool, true, false, Option, none, some, length, if◌then◌else◌}
use sekv.Prelude.Bytes.{Bytes}
use sekv.Parser.Token
use sekv.Parser.Token.{
  ParseError, ParseResult, ok, err, unexpected, unexpected_token, unexpected_eos, out_of_fuel,
  Tokenizer, TokenRule, Token, Literal, next, peek, has_more,
}
use sekv.Parser.Rules
use sekv.Parser.Rules.{
  Keyword, keyword, dot, semicolon, ident, literal, config, create, database, debug, echo, exists,
  from, help, if_word, into, not_word, show, table,
}

pub data Statement : Type 0 where
  create_db : Bytes → Bool → Statement
  create_table : Bytes → Bytes → Bool → Statement
  config_stmt : Bytes → Bytes → Statement
  debug_stmt : Statement → Statement
  echo_stmt : Bytes → Statement
  help_stmt : Option Bytes → Statement
  show_stmt : Bytes → Option Bytes → Statement
  put_stmt : Bytes → Bytes → Bytes → Bytes → Statement
  delete_stmt get_stmt : Bytes → Bytes → Bytes → Statement

abbrev pub pure : {A : Type 0} → A → TokenRule A
pure a tokenizer = ok (a, tokenizer)

infixl 1 ◌>>=◌ ◌>>◌
abbrev pub ◌>>=◌ : {A : Type 0} {B : Type 0} → TokenRule A → (A → TokenRule B) → TokenRule B
p >>= f = λ tokenizer. Token.◌>>=◌ (p tokenizer) (λ r. f r.0 r.1)

abbrev ◌>>◌ : {A : Type 0} {B : Type 0} → TokenRule A → TokenRule B → TokenRule B
p >> q = p >>= λ _. q

-- `parser.next` of a keyword, and `parser.peek`
abbrev word : Keyword → TokenRule Token
word name = next (keyword name)

abbrev peeking : {A : Type 0} → TokenRule A → TokenRule Bool
peeking rule tokenizer = ok (peek rule tokenizer, tokenizer)

abbrev failing : {A : Type 0} → (Token.Coord → ParseError) → TokenRule A
failing e tokenizer = err (e tokenizer.coord)

unfoldable pub try_parse_if_not_exists : TokenRule Bool
try_parse_if_not_exists = do
  seen ← peeking (keyword if_word)
  if seen then (do word if_word; word not_word; word exists; pure true) else pure false

unfoldable pub parse_echo_statement : TokenRule Statement
parse_echo_statement = do word echo; msg ← next literal; next semicolon; pure (echo_stmt msg.value)

unfoldable pub parse_config_stmt : TokenRule Statement
parse_config_stmt = do
  word config
  key ← next literal
  value ← next literal
  next semicolon
  pure (config_stmt key.value value.value)

unfoldable pub parse_create_stmt : TokenRule Statement
unfolding try_parse_if_not_exists
parse_create_stmt = do
  word create
  is_database ← peeking (keyword database)
  is_table ← peeking (keyword table)
  if is_database
      then (do
        word database
        create_if_not_exists ← try_parse_if_not_exists
        db_name ← next ident
        next semicolon
        pure (create_db db_name.content create_if_not_exists))
      else if is_table
      then (do
        word table
        create_if_not_exists ← try_parse_if_not_exists
        db_name ← next ident
        next dot
        table_name ← next ident
        next semicolon
        pure (create_table db_name.content table_name.content create_if_not_exists))
      else failing unexpected_token

unfoldable pub parse_get_stmt : TokenRule Statement
parse_get_stmt = do
  word Rules.get
  key ← next literal
  word from
  db_name ← next ident
  next dot
  table_name ← next ident
  pure (get_stmt key.value db_name.content table_name.content)

unfoldable pub parse_put_stmt : TokenRule Statement
parse_put_stmt = do
  word Rules.put
  key ← next literal
  value ← next literal
  word into
  db_name ← next ident
  next dot
  table_name ← next ident
  pure (put_stmt key.value value.value db_name.content table_name.content)

unfoldable pub parse_delete_stmt : TokenRule Statement
parse_delete_stmt = do
  word Rules.delete
  key ← next literal
  word from
  db_name ← next ident
  next dot
  table_name ← next ident
  pure (delete_stmt key.value db_name.content table_name.content)

unfoldable pub parse_show_stmt : TokenRule Statement
parse_show_stmt = do
  word show
  property ← next ident
  is_from ← peeking (keyword from)
  name ← if is_from then (do word from; name ← next ident; pure (some name.content)) else pure none
  next semicolon
  pure (show_stmt property.content name)

unfoldable pub parse_help_stmt : TokenRule Statement
parse_help_stmt = do
  word help
  is_topic ← peeking ident
  topic ← if is_topic then (do topic ← next ident; pure (some topic.content)) else pure none
  next semicolon
  pure (help_stmt topic)

abbrev pub after_debug : Option Statement → TokenRule Statement
after_debug none tokenizer = err unexpected_eos
after_debug (some stmt) tokenizer = ok (debug_stmt stmt, tokenizer)

-- `parse` is the parser of the statement behind `DEBUG`.
unfoldable pub parse_debug_stmt : TokenRule (Option Statement) → TokenRule Statement
parse_debug_stmt parse = do word debug; stmt ← parse; after_debug stmt

abbrev pub or_else : Keyword → TokenRule Statement → TokenRule Statement → TokenRule Statement
or_else name this others = do seen ← peeking (keyword name); if seen then this else others

abbrev pub statement : TokenRule (Option Statement) → TokenRule Statement
statement parse = or_else echo parse_echo_statement (
    or_else config parse_config_stmt (
      or_else create parse_create_stmt (
        or_else Rules.get parse_get_stmt (
          or_else Rules.put parse_put_stmt (
            or_else Rules.delete parse_delete_stmt (
              or_else show parse_show_stmt (
                or_else help parse_help_stmt
                  (or_else debug (parse_debug_stmt parse) (failing unexpected)))))))))

-- `Parser::parse`
unfoldable pub parse_on : ℕ → TokenRule (Option Statement)
parse_on zero tokenizer = err out_of_fuel
parse_on (suc fuel) tokenizer =
    let start = has_more tokenizer in
    if start.0
    then (do stmt ← statement (parse_on fuel); pure (some stmt)) start.1
    else ok (none, start.1)

-- One unit of fuel more than there are bytes.
unfoldable pub parse : Bytes → ParseResult (Option Statement)
parse input = Token.◌>>=◌ (parse_on (suc (length input)) (Token.new input)) (λ r. ok r.0)
