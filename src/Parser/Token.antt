-- ===== src/Parser/Token.antt =====
-- parser/src/token.rs: the tokenizer, and the rule of each token. A rule that fails returns no tokenizer: the
-- parser stops there, and `peek` works on a copy. Input is bytes, and an error's message text is dropped.
use sekv.Prelude.{ℕ, ◌+◌, Bool, true, false, not, ◌||◌, [], ◌∷◌, take, drop, ◌==◌, if◌then◌else◌}
use sekv.Prelude.Bytes.{Bytes, is_empty}

pub record Coord : Type 0 where
  pub row : ℕ
  pub col : ℕ
  pub pos : ℕ

pub data ParseError : Type 0 where
  unknown unexpected expect invalid_encoding unexpected_token : Coord → ParseError
  unexpected_eos out_of_fuel : ParseError

infixl 5 ◌>>=◌
pub data ParseResult {ι} (T : Type ι) : Type ι where
  ok : T → ParseResult T
  err : ParseError → ParseResult T

-- the operator `?`, followed by what uses its value
abbrev pub ◌>>=◌ {ι κ} :
    {A : Type ι} {B : Type κ} → ParseResult A → (A → ParseResult B) → ParseResult B
ok value >>= continue = continue value
err error >>= continue = err error

pub record Tokenizer : Type 0 where
  pub input : Bytes
  pub coord : Coord

-- A token's rule: the token and the tokenizer that is left.
abbrev pub TokenRule : Type 0 → Type 0
TokenRule T = Tokenizer → ParseResult (T × Tokenizer)

-- a token's content, and where it begins
pub record Token : Type 0 where
  pub content : Bytes
  pub coord : Coord

pub record Literal : Type 0 where
  pub value : Bytes
  pub content : Bytes
  pub coord : Coord

unfoldable pub new : Bytes → Tokenizer
new input = record { input = input; coord = record { row = 1; col = 1; pos = 0 } }

-- The row takes the length that the column should.
unfoldable pub split_at : ℕ → Tokenizer → Token × Tokenizer
split_at pos self = (
  record { content = take pos self.input; coord = self.coord },
  record {
    input = drop pos self.input;
    coord = record { row = self.coord.row + pos; col = self.coord.col; pos = self.coord.pos + pos };
  },
)

-- the bytes before the first one that the test holds of
unfoldable pub prefix_len : (ℕ → Bool) → Bytes → ℕ
prefix_len pred [] = 0
prefix_len pred (b ∷ input) = let rest = prefix_len pred input in if pred b then 0 else 1 + rest

unfoldable pub split_when : (ℕ → Bool) → Tokenizer → Token × Tokenizer
split_when pred self =
    let i = prefix_len pred self.input in
    (
      record { content = take i self.input; coord = self.coord },
      record {
        input = drop i self.input;
        coord = record { row = self.coord.row; col = self.coord.col + i; pos = self.coord.pos + i };
      },
    )

abbrev pub is_blank : ℕ → Bool
is_blank b = (b == b' ') || ((b == b'\t') || (b == b'\r'))

-- The position is left as it is.
unfoldable pub skip : Bytes → Coord → Tokenizer
skip [] coord = record { input = []; coord = coord }
skip (b ∷ input) coord =
    let next_row = skip input (record { row = coord.row + 1; col = 1; pos = coord.pos }) in
    let next_col = skip input (record { row = coord.row; col = coord.col + 1; pos = coord.pos }) in
    if b == b'\n'
    then next_row
    else if is_blank b
    then next_col
    else record { input = b ∷ input; coord = coord }

unfoldable pub skip_whitespace : Tokenizer → Tokenizer
unfolding skip
skip_whitespace self = skip self.input self.coord

unfoldable pub next : {T : Type 0} → TokenRule T → TokenRule T
next rule self = rule (skip_whitespace self)

abbrev pub peeked : {T : Type 0} → ParseResult (T × Tokenizer) → Bool
peeked (ok r) = true
peeked (err e) = false

unfoldable pub peek : {T : Type 0} → TokenRule T → Tokenizer → Bool
peek rule self = peeked (next rule self)

unfoldable pub has_more : Tokenizer → Bool × Tokenizer
has_more self = let self' = skip_whitespace self in (not (is_empty self'.input), self')
