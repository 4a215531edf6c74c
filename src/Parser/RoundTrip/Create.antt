-- ===== src/Parser/RoundTrip/Create.antt =====
-- The text of `CREATE`, `SHOW` and `HELP` statements, and what parser/src/parse.rs makes of it.
use sekv.Prelude.{ℕ, ◌+◌, ◌≡◌, refl, ap, ◌∙◌, Bool, true, false, [], ◌∷◌, ◌++◌, arith, ◌==◌}
use sekv.Prelude.Bytes.{Bytes, starts_with, is_empty}
use sekv.Parser.Token.{Coord, next, peek, err, expect, peeked, skip, skip_whitespace}
use sekv.Parser.Rules.{keyword, lower, upper, create, database, exists, if_word, not_word, table}
use sekv.Parser.Yields.{Yields, IsName, name-Dense, skip-Dense}
use sekv.Parser.RoundTrip.{
  next-keyword, blank_word, next-dot, next-semicolon, next-ident, blank_ident,
}
use sekv.Parser.Statement.{create_db, create_table, parse_create_stmt, try_parse_if_not_exists}

abbrev flag_text : Bool → Bytes → Bytes
flag_text false rest = rest
flag_text true rest =
    b' ' ∷ (upper if_word ++ (b' ' ∷ (upper not_word ++ (b' ' ∷ (upper exists ++ rest)))))

-- Without `IF NOT EXISTS`, a name that begins with "if" or "IF" is taken for that keyword.
abbrev pub NotIf : Bool → Bytes → Type 0
NotIf true name = Unit
NotIf false name =
    (starts_with (name ++ b';' ∷ []) (lower if_word) ≡ false)
    × (starts_with (name ++ b';' ∷ []) (upper if_word) ≡ false)

two_bytes :
    (name rest : Bytes) (c a b : ℕ)
    → is_empty name ≡ false
    → (c == b) ≡ false
    → starts_with (name ++ b';' ∷ []) (a ∷ b ∷ []) ≡ false
    → starts_with (name ++ (c ∷ rest)) (a ∷ b ∷ []) ≡ false
unfolding starts_with
two_bytes [] rest c a b n k h = absurd (ground (arith, n))
two_bytes (x ∷ []) rest c a b n k h = ground (arith, k, h)
two_bytes (x ∷ y ∷ name) rest c a b n k h = ground (arith, h)

keyword-name :
    (name rest : Bytes) (c : ℕ)
    → IsName name
    → (c == b'f') ≡ false
    → (c == b'F') ≡ false
    → NotIf false name
    → (coord : Coord)
    → keyword if_word (record { input = name ++ (c ∷ rest); coord = coord }) ≡ err (expect coord)
unfolding keyword lower upper
keyword-name name rest c n k l h coord =
    rw
      (
        keyword,
        two_bytes name rest c b'i' b'f' n.0 k h.0,
        two_bytes name rest c b'I' b'F' n.0 l h.1,
      )
      refl

peek-name :
    (name rest : Bytes) (c : ℕ)
    → IsName name
    → (c == b'f') ≡ false
    → (c == b'F') ≡ false
    → NotIf false name
    → (coord : Coord)
    → peek (keyword if_word) (record { input = b' ' ∷ (name ++ (c ∷ rest)); coord = coord }) ≡ false
unfolding peek next skip_whitespace skip
peek-name name rest c n k l h coord =
    let after : Coord = record { row = coord.row; col = coord.col + 1; pos = coord.pos } in
    let missed : next (keyword if_word)
          (record { input = b' ' ∷ (name ++ (c ∷ rest)); coord = coord })
        ≡ err (expect after) =
      ap (keyword if_word) (skip-Dense (name ++ (c ∷ rest)) after (name-Dense name (c ∷ rest) n))
      ∙ keyword-name name rest c n k l h after in
    ap (λ r. peeked r) missed

peek-if :
    (rest : Bytes) (coord : Coord)
    → peek (keyword if_word) (record { input = b' ' ∷ (upper if_word ++ rest); coord = coord })
      ≡ true
unfolding peek next skip_whitespace skip keyword lower upper starts_with
peek-if rest coord = refl

module _ (name rest : Bytes) (c : ℕ) (n : IsName name) (k : (c == b'f') ≡ false)
    (l : (c == b'F') ≡ false) where
  abbrev name_text : Bytes
  name_text = b' ' ∷ (name ++ (c ∷ rest))

  try-Yields :
      (flag : Bool)
      → NotIf flag name
      → Yields try_parse_if_not_exists (flag_text flag name_text) (λ b. b ≡ flag) name_text
  unfolding try_parse_if_not_exists
  try-Yields false h coord = (false, coord, refl, rw (peek-name name rest c n k l h coord) refl)
  try-Yields true h coord =
      let exists_text = b' ' ∷ (upper exists ++ name_text) in
      let not_text = b' ' ∷ (upper not_word ++ exists_text) in
      let i = blank_word if_word not_text coord in
      let w = blank_word not_word exists_text i.1 in
      let e = blank_word exists name_text w.1 in
      (true, e.1, refl, rw (peek-if not_text coord, i.3, w.3, e.3) refl)

abbrev pub create_db_text : Bytes → Bool → Bytes → Bytes
create_db_text db_name flag rest =
    upper create ++ (b' ' ∷ (upper database ++ flag_text flag (b' ' ∷ (db_name ++ (b';' ∷ rest)))))

abbrev pub create_table_text : Bytes → Bytes → Bool → Bytes → Bytes
create_table_text db_name table_name flag rest =
    upper create
    ++ (b' '
        ∷ (upper table
            ++ flag_text flag (b' ' ∷ (db_name ++ (b'.' ∷ (table_name ++ (b';' ∷ rest)))))))

module _ (text : Bytes) (coord : Coord) where
  peek-database :
      peek (keyword database) (record { input = b' ' ∷ (upper database ++ text); coord = coord })
      ≡ true
  unfolding peek next skip_whitespace skip keyword lower upper starts_with
  peek-database = refl

  peek-table :
      peek (keyword database) (record { input = b' ' ∷ (upper table ++ text); coord = coord })
      ≡ false
  unfolding peek next skip_whitespace skip keyword lower upper starts_with
  peek-table = refl

  peek-table_too :
      peek (keyword table) (record { input = b' ' ∷ (upper table ++ text); coord = coord }) ≡ true
  unfolding peek next skip_whitespace skip keyword lower upper starts_with
  peek-table_too = refl

module _ (db_name rest : Bytes) (db : IsName db_name) (flag : Bool)
    (not_if : NotIf flag db_name) where
  pub create_db-Yields :
      Yields parse_create_stmt
        (create_db_text db_name flag rest)
        (λ s. s ≡ create_db db_name flag)
        rest
  unfolding parse_create_stmt
  create_db-Yields coord =
      let after_flag = b' ' ∷ (db_name ++ (b';' ∷ rest)) in
      let after_kind = flag_text flag after_flag in
      let w = next-keyword create (b' ' ∷ (upper database ++ after_kind)) coord in
      let d = blank_word database after_kind w.1 in
      let f = try-Yields db_name rest b';' db refl refl flag not_if d.1 in
      let i = blank_ident db_name (b';' ∷ rest) db refl f.1 in
      let e = next-semicolon rest i.1 in
      (
        create_db db_name flag,
        e.1,
        refl,
        rw (w.3, peek-database after_kind w.1, d.3, f.3, i.3, e.3, i.2, f.2) refl,
      )

  module _ (table_name : Bytes) (tbl : IsName table_name) where
    pub create_table-Yields :
        Yields parse_create_stmt
          (create_table_text db_name table_name flag rest)
          (λ s. s ≡ create_table db_name table_name flag)
          rest
    unfolding parse_create_stmt
    create_table-Yields coord =
        let after_dot = table_name ++ (b';' ∷ rest) in
        let after_kind = flag_text flag (b' ' ∷ (db_name ++ (b'.' ∷ after_dot))) in
        let w = next-keyword create (b' ' ∷ (upper table ++ after_kind)) coord in
        let d = blank_word table after_kind w.1 in
        let f = try-Yields db_name after_dot b'.' db refl refl flag not_if d.1 in
        let i = blank_ident db_name (b'.' ∷ after_dot) db refl f.1 in
        let p = next-dot after_dot i.1 in
        let t = next-ident table_name (b';' ∷ rest) tbl refl p.1 in
        let e = next-semicolon rest t.1 in
        (
          create_table db_name table_name flag,
          e.1,
          refl,
          rw
              (
                w.3,
                peek-table after_kind w.1,
                peek-table_too after_kind w.1,
                d.3,
                f.3,
                i.3,
                p.3,
                t.3,
                e.3,
                i.2,
                t.2,
                f.2,
              )
              refl,
        )
