-- ===== src/Console/Runs.antt =====
-- One character at the buffer of lib/runtime/include/robobus/console/interpreter.hpp, and at the line
-- editor of `Editor`.
use mathlib.Core.List.{append_assoc, reverse-cons}
use robobus.Base.{
  ◌∙◌, ℕ, ◌+◌, ◌-◌, ◌<◌, ◌≡◌, refl, sym, arith, Option, none, some, List, [], ◌∷◌, ◌++◌, reverse,
  length, ◌==◌, if◌then◌else◌, Bool-cases, inl, inr, min,
}
use robobus.Console.{
  Interpreter, Mode, normal, escape, escape_bracket, Outcome, enter, backspace, delete, insert,
  handle_normal_input, handle_escape_input, handle_escape_bracket_input, handle_input,
}
use robobus.Console.Refinement.{
  Represents, Yields, enter-empty, enter_line, backspace-cons, delete-cons, insert-free,
}
use robobus.Console.Editor.{
  Editor, size, submit, drop_before, drop_after, move_left, move_right, type_in, is_enter,
  step_normal, step_bracket, step,
}

-- The buffer's state represents the editor's, mode and all.
pub record Models (c : Interpreter) (e : Editor) : Type 0 where
  pub halves : Represents c e.left e.right
  pub same_mode : c.mode ≡ e.mode

abbrev pub Simulates : Outcome → Editor × Option (List ℕ) → Type 0
Simulates o (e, line) = Yields o e.left e.right e.mode line

module _ (c : Interpreter) where
  enter-submit :
      (l r : List ℕ) → Represents c l r → c.mode ≡ normal → Simulates (enter c) (submit l r)
  enter-submit [] [] h m = rw (← m) (enter-empty c h)
  enter-submit (x ∷ l) r h m = rw (← m) (enter_line c (x ∷ l) r h (omega arith))
  enter-submit [] (y ∷ r) h m = rw (← m) (enter_line c [] (y ∷ r) h (omega arith))

  backspace-drop :
      (l r : List ℕ)
      → Represents c l r
      → c.mode ≡ normal
      → Simulates (backspace c) (drop_before l r, none)
  backspace-drop [] r h m = record {
    state = c;
    outcome = unfold backspace in ground arith;
    related = h;
    in_mode = m;
  }
  backspace-drop (x ∷ l) r h m = rw (← m) (backspace-cons c x l r h)

  delete-drop :
      (l r : List ℕ)
      → Represents c l r
      → c.mode ≡ normal
      → Simulates (delete c) (drop_after l r, none)
  delete-drop l [] h m = record {
    state = c;
    outcome = unfold delete in ground arith;
    related = h;
    in_mode = m;
  }
  delete-drop l (x ∷ r) h m = rw (← m) (delete-cons c x l r h)

  insert-type_in :
      (ch : ℕ) (l r : List ℕ)
      → Represents c l r
      → c.mode ≡ normal
      → length l + length r < 256
      → Simulates (insert ch c) (type_in ch l r, none)
  insert-type_in ch l r h m small =
      rw (← m) (insert-free c ch l r h.free h.contents h.room h.text_length h.cursor small)

  switch : (l r : List ℕ) (m : Mode) → Represents c l r → Represents (record c { mode = m }) l r
  switch l r m h = record {
    free = h.free;
    contents = h.contents;
    room = h.room;
    text_length = h.text_length;
    cursor = h.cursor;
  }

  switch_to :
      (l r : List ℕ) (m : Mode)
      → Represents c l r
      → Yields (some (record c { mode = m }, none)) l r m none
  switch_to l r m h = record {
    state = record c { mode = m };
    outcome = refl;
    related = switch l r m h;
    in_mode = refl;
  }

  normal-step :
      (ch : ℕ) (l r : List ℕ)
      → Represents c l r
      → c.mode ≡ normal
      → length l + length r < 256
      → Simulates
          (handle_normal_input ch c)
          (step_normal ch (record { left = l; right = r; mode = normal }))
  unfolding handle_normal_input step_normal
  normal-step ch l r h m small = elim (Bool-cases (is_enter ch)) [
    | inl e ↦ rw e (enter-submit l r h m)
    | inr e ↦ rw e (elim (Bool-cases (ch == 0x1b)) [
      | inl e1 ↦ rw e1 (switch_to l r escape h)
      | inr e1 ↦ rw e1 (elim (Bool-cases (ch == 0x7f)) [
        | inl e2 ↦ rw e2 (backspace-drop l r h m)
        | inr e2 ↦ rw e2 (elim (Bool-cases (ch == 0x7e)) [
          | inl e3 ↦ rw e3 (delete-drop l r h m)
          | inr e3 ↦ rw e3 (insert-type_in ch l r h m small)
        ])
      ])
    ])
  ]

  escape-step :
      (ch : ℕ) (l r : List ℕ)
      → Represents c l r
      → Yields (handle_escape_input ch c) l r (if ch == b'[' then escape_bracket else normal) none
  unfolding handle_escape_input
  escape-step ch l r h = elim (Bool-cases (ch == b'[')) [
    | inl e ↦ rw e (switch_to l r escape_bracket h)
    | inr e ↦ rw e (switch_to l r normal h)
  ]

  -- Where the cursor goes, the halves follow.
  abbrev At : ℕ → Editor → Type 0
  At n e =
      Yields (some (record c { cursor_pos = n; mode = normal }, none)) e.left e.right e.mode none

  moved :
      (n : ℕ) (l r l' r' : List ℕ) (h : Represents c l r)
      → reverse l ++ (r ++ h.free) ≡ reverse l' ++ (r' ++ h.free)
      → length l' + length r' ≡ length l + length r
      → n ≡ length l'
      → At n (record { left = l'; right = r'; mode = normal })
  moved n l r l' r' h e same at = record {
    state = record c { cursor_pos = n; mode = normal };
    outcome = refl;
    related = record {
      free = h.free;
      contents = h.contents ∙ e;
      room = omega arith;
      text_length = omega arith;
      cursor = at;
    };
    in_mode = refl;
  }

  left-step : (l r : List ℕ) → Represents c l r → At (c.cursor_pos - 1) (move_left l r)
  left-step [] r h = moved _ [] r [] r h refl refl (omega arith)
  left-step (x ∷ l) r h =
      moved _ (x ∷ l) r l (x ∷ r) h
        (rw (reverse-cons x l) (append_assoc (reverse l) (x ∷ []) (r ++ h.free))) (omega arith)
        (omega arith)

  right-step :
      (l r : List ℕ) → Represents c l r → At (min c.length (c.cursor_pos + 1)) (move_right l r)
  right-step l [] h = moved _ l [] l [] h refl refl (omega arith)
  right-step l (x ∷ r) h =
      moved _ l (x ∷ r) (x ∷ l) r h
        (sym (rw (reverse-cons x l) (append_assoc (reverse l) (x ∷ []) (r ++ h.free))))
        (omega arith) (omega arith)

  bracket-step :
      (ch : ℕ) (l r : List ℕ)
      → Represents c l r
      → Simulates
          (handle_escape_bracket_input ch c)
          (step_bracket ch (record { left = l; right = r; mode = escape_bracket }), none)
  unfolding handle_escape_bracket_input step_bracket
  bracket-step ch l r h = elim (Bool-cases (ch == b'D')) [
    | inl e ↦ rw e (left-step l r h)
    | inr e ↦ rw e (elim (Bool-cases (ch == b'C')) [
      | inl e1 ↦ rw e1 (right-step l r h)
      | inr e1 ↦ rw e1 (moved _ l r l r h refl refl h.cursor)
    ])
  ]

  mode-step :
      (ch : ℕ) (l r : List ℕ) (m : Mode)
      → Represents c l r
      → c.mode ≡ m
      → length l + length r < 256
      → Simulates (handle_input ch c) (step ch (record { left = l; right = r; mode = m }))
  unfolding handle_input step
  mode-step ch l r normal h e small = rw (e, handle_input) (normal-step ch l r h e small)
  mode-step ch l r escape h e small = rw (e, handle_input) (escape-step ch l r h)
  mode-step ch l r escape_bracket h e small = rw (e, handle_input) (bracket-step ch l r h)

-- With less than 256 characters in the line, a character is handled without an access outside of
-- the buffer, and it does to the buffer what it does to the line editor: the new state represents
-- the editor's next state, and a line is handed over exactly when the editor hands it over.
pub handle_input-Simulates :
    (c : Interpreter) (e : Editor) (ch : ℕ)
    → Models c e
    → size e < 256
    → Simulates (handle_input ch c) (step ch e)
handle_input-Simulates c e ch h small =
    mode-step c ch e.left e.right e.mode h.halves h.same_mode small
