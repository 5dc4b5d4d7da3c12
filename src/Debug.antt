-- ===== src/Debug.antt =====
-- `DebugInfo` of lib/runtime/include/robobus/debug/debug_info.hpp, and `StringLiteral` of internal/
-- string_literal.hpp. What the adapter is called with is a list of messages; `M` is the type of
-- strings.
pub mod Messages
pub mod Literals
pub mod Contexts
mod Tests
use mathlib.Core.Logic.{ite}
use robobus.Base.{ℕ, ◌+◌, Option, none, some, List, [], ◌∷◌, ◌++◌, take}

module _ {M : Type 0} (same : Discrete M) where
  -- `Message`: the next `previous_message_`, and what goes to the adapter.
  unfoldable pub message : M → M → M × List M
  message m previous = ite (same previous m) (previous, []) (m, m ∷ [])

  unfoldable pub messages : List M → M → M × List M
  messages [] previous = (previous, [])
  messages (m ∷ rest) previous =
      let (p1, shown) = message m previous in
      let (p2, more) = messages rest p1 in (p2, shown ++ more)

-- `StringLiteral<N>`: the characters with their zero, `N + 1` in number.
pub record StringLiteral : Type 0 where
  pub size : ℕ
  pub characters : List ℕ

-- `operator+`, for a literal and for a character.
unfoldable pub concat : StringLiteral → StringLiteral → StringLiteral
concat a b = record {
  size = a.size + b.size;
  characters = take a.size a.characters ++ take (b.size + 1) b.characters;
}

unfoldable pub append_char : StringLiteral → ℕ → StringLiteral
append_char a ch = record {
  size = a.size + 1;
  characters = take a.size a.characters ++ ch ∷ 0 ∷ [];
}
