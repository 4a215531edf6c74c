-- ===== src/Parser/Utf8.antt =====
-- `std::str::from_utf8`, as far as the tokens ask it: whether bytes are UTF-8, by the table of the Unicode standard.
use sekv.Prelude.{
  ℕ, ◌<◌, ◌≡◌, refl, Bool, true, false, ◌&&◌, Option, none, some, List, [], ◌∷◌, arith, All, leb,
  ltb, if◌then◌else◌,
}
use sekv.Prelude.Bytes.{Bytes}

-- the bytes that may come next, from the first to the last
record Span : Type 0 where
  first : ℕ
  last : ℕ

abbrev within : ℕ → Span → Bool
within b span = leb span.first b && leb b span.last

abbrev follow : Span
follow = record { first = 0x80; last = 0xbf }

-- the bytes that follow a first byte, or none where no character begins with it
abbrev following : ℕ → Option (List Span)
following b =
    if ltb b 0x80
    then some []
    else if ltb b 0xc2
    then none
    else if ltb b 0xe0
    then some (follow ∷ [])
    else if leb b 0xe0
    then some (record { first = 0xa0; last = 0xbf } ∷ follow ∷ [])
    else if ltb b 0xed
    then some (follow ∷ follow ∷ [])
    else if leb b 0xed
    then some (record { first = 0x80; last = 0x9f } ∷ follow ∷ [])
    else if ltb b 0xf0
    then some (follow ∷ follow ∷ [])
    else if leb b 0xf0
    then some (record { first = 0x90; last = 0xbf } ∷ follow ∷ follow ∷ [])
    else if ltb b 0xf4
    then some (follow ∷ follow ∷ follow ∷ [])
    else if leb b 0xf4
    then some (record { first = 0x80; last = 0x8f } ∷ follow ∷ follow ∷ [])
    else none

utf8_after : List Span → Bytes → Bool
utf8_after [] [] = true
utf8_after (span ∷ spans) [] = false
utf8_after (span ∷ spans) (b ∷ bytes) = let rest = utf8_after spans bytes in within b span && rest
utf8_after [] (b ∷ bytes) = elim (following b) [
  | none ↦ false
  | some spans ↦ utf8_after spans bytes
]

unfoldable pub is_utf8 : Bytes → Bool
unfolding utf8_after
is_utf8 bytes = utf8_after [] bytes

-- ASCII is UTF-8.
pub is_utf8_ascii : (bytes : Bytes) → All (λ b. b < 0x80) bytes → is_utf8 bytes ≡ true
unfolding is_utf8 utf8_after
is_utf8_ascii [] a = refl
is_utf8_ascii (b ∷ bytes) a =
    let small : ltb b 0x80 ≡ true = ground (arith, a.0) in
    rw (utf8_after, small) (is_utf8_ascii bytes a.1)
