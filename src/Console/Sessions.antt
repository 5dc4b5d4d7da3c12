-- ===== src/Console/Sessions.antt =====
-- Whole sessions at the console of lib/runtime/include/robobus/console/interpreter.hpp, and a full buffer.
use robobus.Base.{
  ◌∙◌, ℕ, suc, zero, ◌+◌, ◌-◌, ◌≤◌, ◌≡◌, ◌≢◌, refl, ap, arith, false, none, some, List, [], ◌∷◌,
  ◌++◌, reverse, length, length-append, length-reverse, inl, inr, ◌>>=◌, Option-cases,
}
use robobus.Console.{
  Interpreter, Mode, normal, load, store, shift_right, insert, handle_normal_input, handle_input,
  run,
}
use robobus.Console.Editor.{Editor, size, is_enter, step_normal, step_bracket, step, run_editor}
use robobus.Console.Runs.{Models, handle_input-Simulates}

store_outside : (n v : ℕ) (buf : List ℕ) → length buf ≤ n → store n v buf ≡ none
store_outside n v buf h = ground arith

insert_outside :
    (k n v : ℕ) (buf : List ℕ)
    → length buf ≡ k + n
    → (shift_right k n buf >>= λ moved. store n v moved) ≡ none
unfolding shift_right
insert_outside zero n v buf h = store_outside n v buf (omega arith)
insert_outside (suc k) n v buf h = elim (Option-cases (load (n + k) buf)) [
  | inl e ↦ rw e refl
  | inr (x, e) ↦ rw (e, store_outside (n + suc k) x buf (omega arith)) refl
]

insert-full :
    (c : Interpreter) (ch : ℕ)
    → length c.buf ≡ c.length
    → c.cursor_pos ≤ c.length
    → insert ch c ≡ none
unfolding insert
insert-full c ch h p =
    ground (arith, insert_outside (c.length - c.cursor_pos) c.cursor_pos ch c.buf (omega arith))

-- At a full buffer of 256 characters, a character that is neither a line's end nor one of the
-- control codes is written outside of the buffer.
pub handle_input_overflow :
    (c : Interpreter) (e : Editor) (ch : ℕ)
    → Models c e
    → e.mode ≡ normal
    → size e ≡ 256
    → is_enter ch ≡ false
    → ch ≢ 0x1b
    → ch ≢ 0x7f
    → ch ≢ 0x7e
    → handle_input ch c ≡ none
unfolding handle_input handle_normal_input
handle_input_overflow c e ch h m full n1 n2 n3 n4 =
    let size : length c.buf ≡ 256 = omega (
      arith,
      ap length h.halves.contents,
      length-append (reverse e.left) (e.right ++ h.halves.free),
      length-append e.right h.halves.free,
      length-reverse e.left,
    ) in
    let at : c.mode ≡ normal = h.same_mode ∙ m in
    rw (at, handle_input, n1) (ground (arith, insert-full c ch (omega arith) (omega arith)))

size-step :
    (ch : ℕ) (l r : List ℕ) (m : Mode)
    → size (step ch (record { left = l; right = r; mode = m })).0 ≤ suc (length l + length r)
unfolding step step_normal step_bracket
size-step ch [] [] m = ground arith
size-step ch [] (y ∷ r) m = ground arith
size-step ch (x ∷ l) [] m = ground arith
size-step ch (x ∷ l) (y ∷ r) m = ground arith

-- A session never leaves the buffer as long as the characters in the line and those to come are
-- 256 at most; its final state and the lines that it hands over are those of the line editor.
pub run-Simulates :
    (chs : List ℕ) (c : Interpreter) (e : Editor)
    → Models c e
    → size e + length chs ≤ 256
    → (c' : Interpreter) × (run chs c ≡ some (c', (run_editor chs e).1))
      × Models c' (run_editor chs e).0
unfolding run run_editor
run-Simulates [] c e h fits = (c, refl, h)
run-Simulates (ch ∷ chs) c e h fits =
    let y = handle_input-Simulates c e ch h (omega arith) in
    let rest =
      run-Simulates chs y.state (step ch e).0 (record { halves = y.related; same_mode = y.in_mode })
        (omega (arith, size-step ch e.left e.right e.mode)) in
    (rest.0, rw (y.outcome, run, rest.1) refl, rest.2)
