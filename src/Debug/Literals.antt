-- ===== src/Debug/Literals.antt =====
-- Literals put together, on lib/runtime/include/robobus/internal/string_literal.hpp.
use mathlib.Core.List.{append_assoc, append-nil}
use robobus.Base.{
  ℕ, ◌+◌, ◌≡◌, sym, ap, ◌∙◌, arith, List, [], ◌∷◌, ◌++◌, take, length, length-append, take-append,
}
use robobus.Debug.{StringLiteral, concat, append_char}

-- A literal stands for a text: its characters, then a zero.
pub record Spells (a : StringLiteral) (text : List ℕ) : Type 0 where
  pub contents : a.characters ≡ text ++ 0 ∷ []
  pub measure : a.size ≡ length text

take-all : (xs : List ℕ) (n : ℕ) → n ≡ length xs → take n xs ≡ xs
take-all xs n e = ap (take n) (sym (append-nil xs)) ∙ take-append xs [] n e

-- Two literals put together spell their texts one after the other, and a literal with a character
-- behind it spells its text with that character; each ends in one zero and has the right size.
pub concat-Spells :
    (a b : StringLiteral) (ch : ℕ) (s t : List ℕ)
    → Spells a s
    → Spells b t
    → Spells (concat a b) (s ++ t) × Spells (append_char a ch) (s ++ ch ∷ [])
unfolding concat append_char
concat-Spells a b ch s t ha hb =
    let first : take a.size a.characters ≡ s =
      rw ha.contents (take-append s (0 ∷ []) a.size ha.measure) in
    let second : take (b.size + 1) b.characters ≡ t ++ 0 ∷ [] =
      rw hb.contents (
        take-all (t ++ 0 ∷ []) (b.size + 1)
          (omega (arith, hb.measure, length-append t (0 ∷ [])))) in
    (
      record {
        contents = rw (first, second) (sym (append_assoc s t (0 ∷ [])));
        measure = omega (arith, ha.measure, hb.measure, length-append s t);
      },
      record {
        contents = rw first (sym (append_assoc s (ch ∷ []) (0 ∷ [])));
        measure = omega (arith, ha.measure, length-append s (ch ∷ []));
      },
    )
