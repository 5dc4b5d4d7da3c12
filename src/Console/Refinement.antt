-- ===== src/Console/Refinement.antt =====
-- The buffer, the length and the cursor of lib/runtime/include/robobus/console/interpreter.hpp against the
-- line editor of `Editor`.
use mathlib.Core.List.{append_assoc, reverse-cons}
use robobus.Base.{
  ℕ, suc, ◌+◌, ◌-◌, ◌<◌, ◌≡◌, refl, ap, arith, Option, none, some, List, [], ◌∷◌, ◌++◌, reverse,
  length, length-append, length-reverse, take, take-append, ◌>>=◌,
}
use robobus.Console.{
  Interpreter, Mode, Outcome, shift_left, shift_right, store, enter, backspace, delete, insert,
}
use robobus.Console.Memory.{last_of, shift_left-append, insert-append}

-- The buffer holds the text, then cells of no meaning, 256 in all.
pub record Represents (c : Interpreter) (left right : List ℕ) : Type 0 where
  pub free : List ℕ
  pub contents : c.buf ≡ reverse left ++ (right ++ free)
  pub room : length left + length right + length free ≡ 256
  pub text_length : c.length ≡ length left + length right
  pub cursor : c.cursor_pos ≡ length left

-- The outcome is a state that represents the two halves, in that mode, and that line.
pub record Yields (o : Outcome) (left right : List ℕ) (mode : Mode) (line : Option (List ℕ))
    : Type 0 where
  pub state : Interpreter
  pub outcome : o ≡ some (state, line)
  pub related : Represents state left right
  pub in_mode : state.mode ≡ mode

-- The moves of the buffer, at the two halves.
shift_left-before :
    (x : ℕ) (l r free buf : List ℕ) (k n : ℕ)
    → buf ≡ reverse (x ∷ l) ++ (r ++ free)
    → k ≡ length r
    → n ≡ suc (length l)
    → shift_left k n buf ≡ some (reverse l ++ (r ++ (last_of x r ∷ free)))
shift_left-before x l r free buf k n eb ek en =
    rw (eb, ek, reverse-cons x l, append_assoc (reverse l) (x ∷ []) (r ++ free))
      (shift_left-append r (reverse l) x n free (omega (arith, length-reverse l)))

shift_left-after :
    (x : ℕ) (l r free buf : List ℕ) (k n : ℕ)
    → buf ≡ reverse l ++ ((x ∷ r) ++ free)
    → k ≡ length r
    → n ≡ suc (length l)
    → shift_left k n buf ≡ some (reverse l ++ (r ++ (last_of x r ∷ free)))
shift_left-after x l r free buf k n eb ek en =
    rw (eb, ek) (shift_left-append r (reverse l) x n free (omega (arith, length-reverse l)))

insert-between :
    (y ch : ℕ) (l r free buf : List ℕ) (k n : ℕ)
    → buf ≡ reverse l ++ (r ++ (y ∷ free))
    → k ≡ length r
    → n ≡ length l
    → (shift_right k n buf >>= λ moved. store n ch moved) ≡ some (reverse (ch ∷ l) ++ (r ++ free))
insert-between y ch l r free buf k n eb ek en =
    rw (eb, ek, reverse-cons ch l, append_assoc (reverse l) (ch ∷ []) (r ++ free))
      (insert-append r (reverse l) y ch n free (omega (arith, length-reverse l)))

take-text :
    (l r free buf : List ℕ) (n : ℕ)
    → buf ≡ reverse l ++ (r ++ free)
    → n ≡ length l + length r
    → take n buf ≡ reverse l ++ r
take-text l r free buf n eb en =
    rw (eb, ← append_assoc (reverse l) r free)
      (take-append (reverse l ++ r) free n
        (omega (arith, length-append (reverse l) r, length-reverse l)))

module _ (c : Interpreter) where
  pub enter-empty : Represents c [] [] → Yields (enter c) [] [] c.mode none
  unfolding enter
  enter-empty h = record { state = c; outcome = ground arith; related = h; in_mode = refl }

  pub enter_line :
      (l r : List ℕ)
      → Represents c l r
      → 0 < length l + length r
      → Yields (enter c) [] [] c.mode (some (reverse l ++ r))
  unfolding enter
  enter_line l r h p = record {
    state = record c { length = 0; cursor_pos = 0 };
    outcome = ground (arith, take-text l r h.free c.buf c.length h.contents h.text_length);
    related = record {
      free = c.buf;
      contents = refl;
      room = omega (
        arith,
        ap length h.contents,
        length-append (reverse l) (r ++ h.free),
        length-append r h.free,
        length-reverse l,
        h.room,
      );
      text_length = refl;
      cursor = refl;
    };
    in_mode = refl;
  }

  pub backspace-cons :
      (x : ℕ) (l r : List ℕ) → Represents c (x ∷ l) r → Yields (backspace c) l r c.mode none
  unfolding backspace
  backspace-cons x l r h = record {
    state = record c {
      buf = reverse l ++ (r ++ (last_of x r ∷ h.free));
      length = c.length - 1;
      cursor_pos = c.cursor_pos - 1;
    };
    outcome = ground (
      arith,
      shift_left-before x l r h.free c.buf (c.length - c.cursor_pos) c.cursor_pos h.contents
          (omega arith) h.cursor,
    );
    related = record {
      free = last_of x r ∷ h.free;
      contents = refl;
      room = omega arith;
      text_length = omega arith;
      cursor = omega arith;
    };
    in_mode = refl;
  }

  pub delete-cons :
      (x : ℕ) (l r : List ℕ) → Represents c l (x ∷ r) → Yields (delete c) l r c.mode none
  unfolding delete
  delete-cons x l r h = record {
    state = record c { buf = reverse l ++ (r ++ (last_of x r ∷ h.free)); length = c.length - 1 };
    outcome = ground (
      arith,
      shift_left-after x l r h.free c.buf (c.length - (c.cursor_pos + 1)) (c.cursor_pos + 1)
          h.contents (omega arith) (omega arith),
    );
    related = record {
      free = last_of x r ∷ h.free;
      contents = refl;
      room = omega arith;
      text_length = omega arith;
      cursor = omega arith;
    };
    in_mode = refl;
  }

  pub insert-free :
      (ch : ℕ) (l r free : List ℕ)
      → c.buf ≡ reverse l ++ (r ++ free)
      → length l + length r + length free ≡ 256
      → c.length ≡ length l + length r
      → c.cursor_pos ≡ length l
      → length l + length r < 256
      → Yields (insert ch c) (ch ∷ l) r c.mode none
  unfolding insert
  insert-free ch l r [] hc hr ht hp small = absurd (omega arith)
  insert-free ch l r (y ∷ free) hc hr ht hp small = record {
    state = record c {
      buf = reverse (ch ∷ l) ++ (r ++ free);
      length = c.length + 1;
      cursor_pos = c.cursor_pos + 1;
    };
    outcome = ground (
      arith,
      insert-between y ch l r free c.buf (c.length - c.cursor_pos) c.cursor_pos hc (omega arith) hp,
    );
    related = record {
      free = free;
      contents = refl;
      room = omega arith;
      text_length = omega arith;
      cursor = omega arith;
    };
    in_mode = refl;
  }
