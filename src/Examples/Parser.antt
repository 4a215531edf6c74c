-- ===== src/Examples/Parser.antt =====
-- Statements of the command line, written and read.
use sekv.Prelude.{◌≡◌, refl, ◌≢◌, false, some, [], ◌∷◌}
use sekv.Prelude.Bytes.{Bytes, starts_with}
use sekv.Parser.Token.{ok, err, out_of_fuel}
use sekv.Parser.Rules.{lower, upper}
use sekv.Parser.Statement.{Statement, put_stmt, debug_stmt, create_db, parse}
use sekv.Parser.Print.{NoQuote}
use sekv.Parser.RoundTrip.Whole.{text, Printable, parse-text}
use sekv.Parser.Fuel.{parse-Ends}

abbrev key : Bytes
key = b'a' ∷ b'\n' ∷ b'\\' ∷ []

abbrev db : Bytes
db = b'd' ∷ b'b' ∷ []

-- DEBUG PUT "a\n\\" "" INTO db.db
abbrev put : Statement
put = debug_stmt (put_stmt key [] db db)

key_plain : NoQuote key
key_plain = (λ e. cc, (λ e. cc, (λ e. cc, tt)))

put-Printable : Printable put
put-Printable = (key_plain, tt, (refl, (refl, (refl, tt))), (refl, (refl, (refl, tt))))

parse-text_example : parse (text put []) ≡ ok (some put)
parse-text_example = parse-text put put-Printable

-- CREATE DATABASE db;
abbrev new_db : Statement
new_db = create_db db false

new_db_reads : parse (text new_db []) ≡ ok (some new_db)
unfolding starts_with lower upper
new_db_reads = parse-text new_db ((refl, (refl, (refl, tt))), (refl, refl))

parse-Ends_example : parse (text put []) ≢ err out_of_fuel
parse-Ends_example = parse-Ends (text put [])
