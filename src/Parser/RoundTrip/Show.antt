-- ===== src/Parser/RoundTrip/Show.antt =====
-- The text of `SHOW` and `HELP` statements, and what parser/src/parse.rs makes of it.
use sekv.Prelude.{◌≡◌, refl, ap, true, false, Option, none, some, ◌∷◌, ◌++◌}
use sekv.Prelude.Bytes.{Bytes, starts_with}
use sekv.Parser.Token.{
  Coord, Token, ok, next, peek, peeked, skip, skip_whitespace, split_when, prefix_len,
}
use sekv.Parser.Rules.{keyword, lower, upper, ident, from, help, show}
use sekv.Parser.Yields.{Yields, IsName}
use sekv.Parser.RoundTrip.{next-keyword, blank_word, next-semicolon, blank_ident}
use sekv.Parser.Statement.{show_stmt, help_stmt, parse_show_stmt, parse_help_stmt}

abbrev from_text : Option Bytes → Bytes → Bytes
from_text none rest = b';' ∷ rest
from_text (some name) rest = b' ' ∷ (upper from ++ (b' ' ∷ (name ++ (b';' ∷ rest))))

abbrev pub show_text : Bytes → Option Bytes → Bytes → Bytes
show_text property name rest = upper show ++ (b' ' ∷ (property ++ from_text name rest))

abbrev pub help_text : Option Bytes → Bytes → Bytes
help_text none rest = upper help ++ (b';' ∷ rest)
help_text (some topic) rest = upper help ++ (b' ' ∷ (topic ++ (b';' ∷ rest)))

abbrev pub IsNameOption : Option Bytes → Type 0
IsNameOption none = Unit
IsNameOption (some name) = IsName name

module _ (rest : Bytes) (coord : Coord) where
  no_from : peek (keyword from) (record { input = b';' ∷ rest; coord = coord }) ≡ false
  unfolding peek next skip_whitespace skip keyword lower upper starts_with
  no_from = refl

  a_from :
      peek (keyword from) (record { input = b' ' ∷ (upper from ++ rest); coord = coord }) ≡ true
  unfolding peek next skip_whitespace skip keyword lower upper starts_with
  a_from = refl

  no_topic : peek ident (record { input = b';' ∷ rest; coord = coord }) ≡ false
  unfolding peek next skip_whitespace skip ident split_when prefix_len
  no_topic = refl

a_topic :
    (topic rest : Bytes) (coord : Coord) (token : Token) (after : Coord)
    → next ident (record { input = b' ' ∷ (topic ++ (b';' ∷ rest)); coord = coord })
      ≡ ok (token, record { input = b';' ∷ rest; coord = after })
    → peek ident (record { input = b' ' ∷ (topic ++ (b';' ∷ rest)); coord = coord }) ≡ true
unfolding peek
a_topic topic rest coord token after h = ap peeked h

module _ (property rest : Bytes) (prop : IsName property) where
  pub show-Yields :
      (name : Option Bytes)
      → IsNameOption name
      → Yields parse_show_stmt
          (show_text property name rest)
          (λ s. s ≡ show_stmt property name)
          rest
  unfolding parse_show_stmt
  show-Yields none n coord =
      let w = next-keyword show (b' ' ∷ (property ++ (b';' ∷ rest))) coord in
      let p = blank_ident property (b';' ∷ rest) prop refl w.1 in
      let e = next-semicolon rest p.1 in
      (show_stmt property none, e.1, refl, rw (w.3, p.3, no_from rest p.1, e.3, p.2) refl)
  show-Yields (some name) n coord =
      let after_from = b' ' ∷ (name ++ (b';' ∷ rest)) in
      let after = b' ' ∷ (upper from ++ after_from) in
      let w = next-keyword show (b' ' ∷ (property ++ after)) coord in
      let p = blank_ident property after prop refl w.1 in
      let f = blank_word from after_from p.1 in
      let i = blank_ident name (b';' ∷ rest) n refl f.1 in
      let e = next-semicolon rest i.1 in
      (
        show_stmt property (some name),
        e.1,
        refl,
        rw (w.3, p.3, a_from after_from p.1, f.3, i.3, e.3, p.2, i.2) refl,
      )

module _ (rest : Bytes) where
  pub help-Yields :
      (topic : Option Bytes)
      → IsNameOption topic
      → Yields parse_help_stmt (help_text topic rest) (λ s. s ≡ help_stmt topic) rest
  unfolding parse_help_stmt
  help-Yields none n coord =
      let w = next-keyword help (b';' ∷ rest) coord in
      let e = next-semicolon rest w.1 in
      (help_stmt none, e.1, refl, rw (w.3, no_topic rest w.1, e.3) refl)
  help-Yields (some topic) n coord =
      let w = next-keyword help (b' ' ∷ (topic ++ (b';' ∷ rest))) coord in
      let i = blank_ident topic (b';' ∷ rest) n refl w.1 in
      let e = next-semicolon rest i.1 in
      (
        help_stmt (some topic),
        e.1,
        refl,
        rw (w.3, a_topic topic rest w.1 i.0 i.1 i.3, i.3, e.3, i.2) refl,
      )
