-- ===== src/Console/Editor.antt =====
-- The line editor that lib/runtime/include/robobus/console/interpreter.hpp is meant to be, with no
-- buffer: the text before the cursor, nearest character first, and the text after it.
use robobus.Base.{
  ℕ, ◌+◌, Bool, Option, none, some, List, [], ◌∷◌, ◌++◌, ◌==◌, if◌then◌else◌, ◌||◌, reverse, length,
}
use robobus.Console.{Mode, keep_line, normal, escape, escape_bracket}

pub record Editor : Type 0 where
  pub left : List ℕ
  pub right : List ℕ
  pub mode : Mode

abbrev pub blank : Editor
blank = record { left = []; right = []; mode = normal }

abbrev pub text : Editor → List ℕ
text e = reverse e.left ++ e.right

abbrev pub size : Editor → ℕ
size e = length e.left + length e.right

abbrev pub submit : List ℕ → List ℕ → Editor × Option (List ℕ)
submit [] [] = (blank, none)
submit l r = (blank, some (reverse l ++ r))

abbrev pub drop_before : List ℕ → List ℕ → Editor
drop_before [] r = record { left = []; right = r; mode = normal }
drop_before (x ∷ l) r = record { left = l; right = r; mode = normal }

abbrev pub drop_after : List ℕ → List ℕ → Editor
drop_after l [] = record { left = l; right = []; mode = normal }
drop_after l (x ∷ r) = record { left = l; right = r; mode = normal }

abbrev pub move_left : List ℕ → List ℕ → Editor
move_left [] r = record { left = []; right = r; mode = normal }
move_left (x ∷ l) r = record { left = l; right = x ∷ r; mode = normal }

abbrev pub move_right : List ℕ → List ℕ → Editor
move_right l [] = record { left = l; right = []; mode = normal }
move_right l (x ∷ r) = record { left = x ∷ l; right = r; mode = normal }

abbrev pub type_in : ℕ → List ℕ → List ℕ → Editor
type_in ch l r = record { left = ch ∷ l; right = r; mode = normal }

abbrev pub is_enter : ℕ → Bool
is_enter ch = ch == 0x0a || ch == 0x0d

unfoldable pub step_normal : ℕ → Editor → Editor × Option (List ℕ)
step_normal ch e =
    if is_enter ch
    then submit e.left e.right
    else if ch == 0x1b
    then (record e { mode = escape }, none)
    else if ch == 0x7f
    then (drop_before e.left e.right, none)
    else if ch == 0x7e
    then (drop_after e.left e.right, none)
    else (type_in ch e.left e.right, none)

unfoldable pub step_bracket : ℕ → Editor → Editor
step_bracket ch e =
    if ch == b'D'
    then move_left e.left e.right
    else if ch == b'C'
    then move_right e.left e.right
    else record e { mode = normal }

-- One character: the next state, and the line that is handed over.
unfoldable pub step : ℕ → Editor → Editor × Option (List ℕ)
unfolding step_normal step_bracket
step ch e = elim e.mode [
  | normal ↦ step_normal ch e
  | escape ↦ (record e { mode = if ch == b'[' then escape_bracket else normal }, none)
  | escape_bracket ↦ (step_bracket ch e, none)
]

unfoldable pub run_editor : List ℕ → Editor → Editor × List (List ℕ)
run_editor [] e = (e, [])
run_editor (ch ∷ rest) e =
    let (e', line) = step ch e in let r = run_editor rest e' in (r.0, keep_line line r.1)
