-- ===== src/Parser/RoundTrip/Whole.antt =====
-- The text of any statement, and what `parse` of parser/src/parse.rs makes of it.
use sekv.Prelude.{
  ℕ, zero, suc, ◌+◌, ◌<◌, ◌≤◌, ◌≡◌, refl, false, Option, none, some, [], ◌∷◌, ◌++◌, length,
  length-append, arith,
}
use sekv.Prelude.Bytes.{Bytes, starts_with, is_empty}
use sekv.Parser.Token
use sekv.Parser.Token.{Coord, TokenRule, ok, next, peek, skip, skip_whitespace, has_more, split_at}
use sekv.Parser.Rules
use sekv.Parser.Rules.{Keyword, keyword, lower, upper, config, create, debug, echo, help, show}
use sekv.Parser.Print.{NoQuote}
use sekv.Parser.Yields.{Yields, IsName, StopsName, skip-Dense}
use sekv.Parser.RoundTrip.{upper-Dense, next-keyword}
use sekv.Parser.RoundTrip.Statements.{
  get_text, put_text, delete_text, echo_text, config_text, get-Yields, put-Yields, delete-Yields,
  echo-Yields, config-Yields,
}
use sekv.Parser.RoundTrip.Create.{
  create_db_text, create_table_text, create_db-Yields, create_table-Yields, NotIf,
}
use sekv.Parser.RoundTrip.Show.{show_text, help_text, show-Yields, help-Yields, IsNameOption}
use sekv.Parser.Statement.{
  Statement, create_db, create_table, config_stmt, debug_stmt, echo_stmt, help_stmt, show_stmt,
  put_stmt, delete_stmt, get_stmt, statement, parse_on, parse, parse_debug_stmt,
  parse_echo_statement, parse_config_stmt, parse_create_stmt, parse_get_stmt, parse_put_stmt,
  parse_delete_stmt, parse_show_stmt, parse_help_stmt,
}

-- A statement as text, followed by `rest`.
unfoldable pub text : Statement → Bytes → Bytes
text (create_db db_name flag) rest = create_db_text db_name flag rest
text (create_table db_name table_name flag) rest = create_table_text db_name table_name flag rest
text (config_stmt key value) rest = config_text key value rest
text (debug_stmt s) rest = upper debug ++ (b' ' ∷ text s rest)
text (echo_stmt message) rest = echo_text message rest
text (help_stmt topic) rest = help_text topic rest
text (show_stmt property name) rest = show_text property name rest
text (put_stmt key value db_name table_name) rest = put_text key value db_name table_name rest
text (delete_stmt key db_name table_name) rest = delete_text key db_name table_name rest
text (get_stmt key db_name table_name) rest = get_text key db_name table_name rest

-- The names are names, no literal has a quote, and a name to create is not taken for `IF`.
abbrev pub Printable : Statement → Type 0
Printable (create_db db_name flag) = IsName db_name × NotIf flag db_name
Printable (create_table db_name table_name flag) =
    IsName db_name × NotIf flag db_name × IsName table_name
Printable (config_stmt key value) = NoQuote key × NoQuote value
Printable (debug_stmt s) = Printable s
Printable (echo_stmt message) = NoQuote message
Printable (help_stmt topic) = IsNameOption topic
Printable (show_stmt property name) = IsName property × IsNameOption name
Printable (put_stmt key value db_name table_name) =
    NoQuote key × NoQuote value × IsName db_name × IsName table_name
Printable (delete_stmt key db_name table_name) = NoQuote key × IsName db_name × IsName table_name
Printable (get_stmt key db_name table_name) = NoQuote key × IsName db_name × IsName table_name

-- how many times `DEBUG` stands before the statement
abbrev pub depth : Statement → ℕ
depth (debug_stmt s) = suc (depth s)
depth _ = 0

module _ (parse : TokenRule (Option Statement)) (rest : Bytes) (coord : Coord) where
  abbrev Goes : Keyword → TokenRule Statement → Type 0
  Goes name rule =
      statement parse (record { input = upper name ++ rest; coord = coord })
      ≡ rule (record { input = upper name ++ rest; coord = coord })

  Goes-echo : Goes echo parse_echo_statement
  unfolding peek next skip_whitespace skip keyword lower upper starts_with
  Goes-echo = refl

  Goes-config : Goes config parse_config_stmt
  unfolding peek next skip_whitespace skip keyword lower upper starts_with
  Goes-config = refl

  Goes-create : Goes create parse_create_stmt
  unfolding peek next skip_whitespace skip keyword lower upper starts_with
  Goes-create = refl

  Goes-get : Goes Rules.get parse_get_stmt
  unfolding peek next skip_whitespace skip keyword lower upper starts_with
  Goes-get = refl

  Goes-put : Goes Rules.put parse_put_stmt
  unfolding peek next skip_whitespace skip keyword lower upper starts_with
  Goes-put = refl

  Goes-delete : Goes Rules.delete parse_delete_stmt
  unfolding peek next skip_whitespace skip keyword lower upper starts_with
  Goes-delete = refl

  Goes-show : Goes show parse_show_stmt
  unfolding peek next skip_whitespace skip keyword lower upper starts_with
  Goes-show = refl

  Goes-help : Goes help parse_help_stmt
  unfolding peek next skip_whitespace skip keyword lower upper starts_with
  Goes-help = refl

  Goes-debug : Goes debug (parse_debug_stmt parse)
  unfolding peek next skip_whitespace skip keyword lower upper starts_with
  Goes-debug = refl

upper-nonempty : (name : Keyword) (rest : Bytes) → is_empty (upper name ++ rest) ≡ false
unfolding upper lower
upper-nonempty config rest = refl
upper-nonempty create rest = refl
upper-nonempty Rules.database rest = refl
upper-nonempty debug rest = refl
upper-nonempty Rules.delete rest = refl
upper-nonempty echo rest = refl
upper-nonempty Rules.exists rest = refl
upper-nonempty Rules.from rest = refl
upper-nonempty Rules.get rest = refl
upper-nonempty help rest = refl
upper-nonempty Rules.if_word rest = refl
upper-nonempty Rules.into rest = refl
upper-nonempty Rules.not_word rest = refl
upper-nonempty Rules.put rest = refl
upper-nonempty show rest = refl
upper-nonempty Rules.table rest = refl

on-Yields :
    (name : Keyword) (rule : TokenRule Statement) (s : Statement) (f : ℕ) (after rest : Bytes)
    → ((coord : Coord) → Goes (parse_on f) after coord name rule)
    → Yields rule (upper name ++ after) (λ t. t ≡ s) rest
    → Yields (parse_on (suc f)) (upper name ++ after) (λ o. o ≡ some s) rest
unfolding parse_on has_more skip_whitespace
on-Yields name rule s f after rest g y coord =
    let r = y coord in
    (
      some s,
      r.1,
      refl,
      rw
          (
            skip-Dense (upper name ++ after) coord (upper-Dense name after),
            upper-nonempty name after,
            g coord,
            r.3,
            r.2,
          )
          refl,
    )

debug-Yields :
    (s : Statement) (f : ℕ) (after rest : Bytes)
    → Yields (parse_on f) after (λ o. o ≡ some s) rest
    → Yields (parse_debug_stmt (parse_on f)) (upper debug ++ after) (λ t. t ≡ debug_stmt s) rest
unfolding parse_debug_stmt
debug-Yields s f after rest y coord =
    let w = next-keyword debug after coord in
    let r = y w.1 in (debug_stmt s, r.1, refl, rw (w.3, r.3, r.2) refl)

blank-parse_on :
    (s : Statement) (f : ℕ) (input rest : Bytes)
    → Yields (parse_on f) input (λ o. o ≡ some s) rest
    → 0 < f
    → Yields (parse_on f) (b' ' ∷ input) (λ o. o ≡ some s) rest
unfolding parse_on has_more skip_whitespace skip
blank-parse_on s zero input rest y h coord = absurd (omega arith)
blank-parse_on s (suc f) input rest y h coord =
    y (record { row = coord.row; col = coord.col + 1; pos = coord.pos })

help_text-parse_on :
    (t : Option Bytes) (f : ℕ) (rest : Bytes)
    → IsNameOption t
    → Yields (parse_on (suc f)) (help_text t rest) (λ o. o ≡ some (help_stmt t)) rest
help_text-parse_on none f rest n =
    on-Yields help parse_help_stmt (help_stmt none) f _ rest (Goes-help (parse_on f) _)
      (help-Yields rest none n)
help_text-parse_on (some t) f rest n =
    on-Yields help parse_help_stmt (help_stmt (some t)) f _ rest (Goes-help (parse_on f) _)
      (help-Yields rest (some t) n)

-- With fuel above the number of its `DEBUG`, a statement is read off the front of its text.
parse_on-text :
    (s : Statement) (f : ℕ) (rest : Bytes)
    → Printable s
    → StopsName rest
    → depth s < f
    → Yields (parse_on f) (text s rest) (λ o. o ≡ some s) rest
unfolding text
parse_on-text s zero rest p stops h = absurd (omega arith)
parse_on-text (create_db d flag) (suc f) rest p stops h =
    on-Yields create parse_create_stmt (create_db d flag) f _ rest (Goes-create (parse_on f) _)
      (create_db-Yields d rest p.0 flag p.1)
parse_on-text (create_table d t flag) (suc f) rest p stops h =
    on-Yields create parse_create_stmt (create_table d t flag) f _ rest (Goes-create (parse_on f) _)
      (create_table-Yields d rest p.0 flag p.1 t p.2)
parse_on-text (config_stmt k v) (suc f) rest p stops h =
    on-Yields config parse_config_stmt (config_stmt k v) f _ rest (Goes-config (parse_on f) _)
      (config-Yields k v rest p.0 p.1)
parse_on-text (debug_stmt s) (suc f) rest p stops h =
    on-Yields debug (parse_debug_stmt (parse_on f)) (debug_stmt s) f (b' ' ∷ text s rest) rest
      (Goes-debug (parse_on f) _)
      (debug-Yields s f (b' ' ∷ text s rest) rest (
        blank-parse_on s f (text s rest) rest (parse_on-text s f rest p stops (omega arith))
          (omega arith)))
parse_on-text (echo_stmt m) (suc f) rest p stops h =
    on-Yields echo parse_echo_statement (echo_stmt m) f _ rest (Goes-echo (parse_on f) _)
      (echo-Yields m [] rest p)
parse_on-text (help_stmt t) (suc f) rest p stops h = help_text-parse_on t f rest p
parse_on-text (show_stmt n o) (suc f) rest p stops h =
    on-Yields show parse_show_stmt (show_stmt n o) f _ rest (Goes-show (parse_on f) _)
      (show-Yields n rest p.0 o p.1)
parse_on-text (put_stmt k v d t) (suc f) rest p stops h =
    on-Yields Rules.put parse_put_stmt (put_stmt k v d t) f _ rest (Goes-put (parse_on f) _)
      (put-Yields k v d t rest p.0 p.2 p.3 stops p.1)
parse_on-text (delete_stmt k d t) (suc f) rest p stops h =
    on-Yields Rules.delete parse_delete_stmt (delete_stmt k d t) f _ rest
      (Goes-delete (parse_on f) _) (delete-Yields k [] d t rest p.0 p.1 p.2 stops)
parse_on-text (get_stmt k d t) (suc f) rest p stops h =
    on-Yields Rules.get parse_get_stmt (get_stmt k d t) f _ rest (Goes-get (parse_on f) _)
      (get-Yields k [] d t rest p.0 p.1 p.2 stops)

depth-text : (s : Statement) (rest : Bytes) → depth s ≤ length (text s rest)
unfolding text
depth-text (debug_stmt s) rest =
    let below = depth-text s rest in
    let len : length (upper debug ++ (b' ' ∷ text s rest))
        ≡ length (upper debug) + suc (length (text s rest)) =
      length-append (upper debug) (b' ' ∷ text s rest) in
    omega (arith, below, len)
depth-text (create_db d flag) rest = omega arith
depth-text (create_table d t flag) rest = omega arith
depth-text (config_stmt k v) rest = omega arith
depth-text (echo_stmt m) rest = omega arith
depth-text (help_stmt t) rest = omega arith
depth-text (show_stmt n o) rest = omega arith
depth-text (put_stmt k v d t) rest = omega arith
depth-text (delete_stmt k d t) rest = omega arith
depth-text (get_stmt k d t) rest = omega arith

-- Any statement is what `parse` makes of its text: its names are names, none of its literals has a quote, and no
-- name to create without `IF NOT EXISTS` begins with "if" or "IF".
pub parse-text : (s : Statement) → Printable s → parse (text s []) ≡ ok (some s)
unfolding parse Token.new
parse-text s p =
    let r =
      parse_on-text s (suc (length (text s []))) [] p tt (omega (arith, depth-text s []))
        (record { row = 1; col = 1; pos = 0 }) in
    rw (r.3, r.2) refl
