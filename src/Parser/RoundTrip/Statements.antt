-- ===== src/Parser/RoundTrip/Statements.antt =====
-- Statements written as text, and what parser/src/parse.rs makes of the text.
use sekv.Prelude.{◌≡◌, refl, ◌∷◌, ◌++◌}
use sekv.Prelude.Bytes.{Bytes}
use sekv.Parser.Rules
use sekv.Parser.Rules.{
  Keyword, keyword, upper, config, create, database, echo, exists, from, help, if_word, into,
  not_word, show, table,
}
use sekv.Parser.Print.{quote, NoQuote}
use sekv.Parser.Yields.{Yields, IsName, StopsName}
use sekv.Parser.RoundTrip.{
  next-keyword, blank_word, next-dot, next-semicolon, blank_literal, next-ident, blank_ident,
}
use sekv.Parser.Statement.{
  get_stmt, put_stmt, delete_stmt, config_stmt, echo_stmt, parse_get_stmt, parse_put_stmt,
  parse_delete_stmt, parse_config_stmt, parse_echo_statement,
}

-- the text of a table's name
abbrev pub table_text : Bytes → Bytes → Bytes → Bytes
table_text db_name table_name rest = db_name ++ (b'.' ∷ (table_name ++ rest))

abbrev pub get_text : Bytes → Bytes → Bytes → Bytes → Bytes
get_text key db_name table_name rest =
    upper Rules.get
    ++ (b' ' ∷ quote key (b' ' ∷ (upper from ++ (b' ' ∷ table_text db_name table_name rest))))

abbrev pub delete_text : Bytes → Bytes → Bytes → Bytes → Bytes
delete_text key db_name table_name rest =
    upper Rules.delete
    ++ (b' ' ∷ quote key (b' ' ∷ (upper from ++ (b' ' ∷ table_text db_name table_name rest))))

abbrev pub put_text : Bytes → Bytes → Bytes → Bytes → Bytes → Bytes
put_text key value db_name table_name rest =
    upper Rules.put
    ++ (b' '
        ∷ quote key (
            b' '
            ∷ quote value (b' ' ∷ (upper into ++ (b' ' ∷ table_text db_name table_name rest)))))

abbrev pub echo_text : Bytes → Bytes → Bytes
echo_text message rest = upper echo ++ (b' ' ∷ quote message (b';' ∷ rest))

abbrev pub config_text : Bytes → Bytes → Bytes → Bytes
config_text key value rest = upper config ++ (b' ' ∷ quote key (b' ' ∷ quote value (b';' ∷ rest)))

module _ (key value db_name table_name rest : Bytes) (key_plain : NoQuote key) (db : IsName db_name)
    (tbl : IsName table_name) (stops : StopsName rest) where
  abbrev after_db : Bytes
  after_db = b'.' ∷ (table_name ++ rest)

  abbrev after_word : Bytes
  after_word = b' ' ∷ table_text db_name table_name rest

  pub get-Yields :
      Yields parse_get_stmt
        (get_text key db_name table_name rest)
        (λ s. s ≡ get_stmt key db_name table_name)
        rest
  unfolding parse_get_stmt
  get-Yields coord =
      let after_key = b' ' ∷ (upper from ++ after_word) in
      let w = next-keyword Rules.get (b' ' ∷ quote key after_key) coord in
      let k = blank_literal key after_key key_plain w.1 in
      let f = blank_word from after_word k.1 in
      let d = blank_ident db_name after_db db refl f.1 in
      let p = next-dot (table_name ++ rest) d.1 in
      let t = next-ident table_name rest tbl stops p.1 in
      (
        get_stmt key db_name table_name,
        t.1,
        refl,
        rw (w.3, k.3, f.3, d.3, p.3, t.3, k.2, d.2, t.2) refl,
      )

  pub delete-Yields :
      Yields parse_delete_stmt
        (delete_text key db_name table_name rest)
        (λ s. s ≡ delete_stmt key db_name table_name)
        rest
  unfolding parse_delete_stmt
  delete-Yields coord =
      let after_key = b' ' ∷ (upper from ++ after_word) in
      let w = next-keyword Rules.delete (b' ' ∷ quote key after_key) coord in
      let k = blank_literal key after_key key_plain w.1 in
      let f = blank_word from after_word k.1 in
      let d = blank_ident db_name after_db db refl f.1 in
      let p = next-dot (table_name ++ rest) d.1 in
      let t = next-ident table_name rest tbl stops p.1 in
      (
        delete_stmt key db_name table_name,
        t.1,
        refl,
        rw (w.3, k.3, f.3, d.3, p.3, t.3, k.2, d.2, t.2) refl,
      )

  module _ (value_plain : NoQuote value) where
    pub put-Yields :
        Yields parse_put_stmt
          (put_text key value db_name table_name rest)
          (λ s. s ≡ put_stmt key value db_name table_name)
          rest
    unfolding parse_put_stmt
    put-Yields coord =
        let after_value = b' ' ∷ (upper into ++ after_word) in
        let after_key = b' ' ∷ quote value after_value in
        let w = next-keyword Rules.put (b' ' ∷ quote key after_key) coord in
        let k = blank_literal key after_key key_plain w.1 in
        let v = blank_literal value after_value value_plain k.1 in
        let f = blank_word into after_word v.1 in
        let d = blank_ident db_name after_db db refl f.1 in
        let p = next-dot (table_name ++ rest) d.1 in
        let t = next-ident table_name rest tbl stops p.1 in
        (
          put_stmt key value db_name table_name,
          t.1,
          refl,
          rw (w.3, k.3, v.3, f.3, d.3, p.3, t.3, k.2, v.2, d.2, t.2) refl,
        )

module _ (key value rest : Bytes) (key_plain : NoQuote key) where
  pub echo-Yields : Yields parse_echo_statement (echo_text key rest) (λ s. s ≡ echo_stmt key) rest
  unfolding parse_echo_statement
  echo-Yields coord =
      let w = next-keyword echo (b' ' ∷ quote key (b';' ∷ rest)) coord in
      let k = blank_literal key (b';' ∷ rest) key_plain w.1 in
      let e = next-semicolon rest k.1 in (echo_stmt key, e.1, refl, rw (w.3, k.3, e.3, k.2) refl)

  module _ (value_plain : NoQuote value) where
    pub config-Yields :
        Yields parse_config_stmt (config_text key value rest) (λ s. s ≡ config_stmt key value) rest
    unfolding parse_config_stmt
    config-Yields coord =
        let after_key = b' ' ∷ quote value (b';' ∷ rest) in
        let w = next-keyword config (b' ' ∷ quote key after_key) coord in
        let k = blank_literal key after_key key_plain w.1 in
        let v = blank_literal value (b';' ∷ rest) value_plain k.1 in
        let e = next-semicolon rest v.1 in
        (config_stmt key value, e.1, refl, rw (w.3, k.3, v.3, e.3, k.2, v.2) refl)
