-- ===== src/Rock/Lexical.antt =====
-- rock/src/lexical.rs: the next keys in the lexicographic order of byte strings.
pub mod Range
use sekv.Prelude.{ℕ, ◌+◌, Bool, true, false, List, [], ◌∷◌, ◌++◌, ◌==◌, if◌then◌else◌}
use sekv.Prelude.Bytes.{Bytes}

-- the `while let Some(&last) = r.last()` that pops each last 0xFF
unfoldable pub pop_last : Bytes → Bytes
pop_last [] = []
pop_last (b ∷ bytes) = elim (pop_last bytes) [
  | [] ↦ if b == 255 then [] else b ∷ []
  | c ∷ r ↦ b ∷ c ∷ r
]

-- `if let Some(last) = r.last_mut() { *last += 0x1; }`
unfoldable pub add_to_last : Bytes → Bytes
add_to_last [] = []
add_to_last (b ∷ []) = (b + 1) ∷ []
add_to_last (b ∷ c ∷ r) = b ∷ add_to_last (c ∷ r)

unfoldable pub lexical_next_boundary : Bytes → Bytes
unfolding pop_last add_to_last
lexical_next_boundary bytes = add_to_last (pop_last bytes)

unfoldable pub lexical_next : Bytes → Bytes
lexical_next bytes = bytes ++ 0 ∷ []
