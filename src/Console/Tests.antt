-- ===== src/Console/Tests.antt =====
-- Sessions at the console.
use robobus.Base.{ℕ, ◌≡◌, refl, none, some, List, [], ◌∷◌, replicate, arith}
use robobus.Console.{
  Interpreter, new_interpreter, normal, handle_input, run, show, prompt, reverse_on, reverse_off,
  clear_line, char,
}
use robobus.Console.Editor.{Editor, blank, step, run_editor}
use robobus.Console.Runs.{Models}
use robobus.Console.Refinement.{Represents}
use robobus.Console.Display.{show-halves}
use robobus.Console.Sessions.{handle_input_overflow, run-Simulates}

-- "ac", the cursor moved to the left, "b", and the end of the line.
abbrev typing : List ℕ
typing = b'a' ∷ b'c' ∷ 0x1b ∷ b'[' ∷ b'D' ∷ b'b' ∷ 0x0a ∷ []

typing_run : (run_editor typing blank).1 ≡ (b'a' ∷ b'b' ∷ b'c' ∷ []) ∷ []
unfolding run_editor step
typing_run = refl

new-Models : Models new_interpreter blank
new-Models = record {
  halves = record {
    free = replicate 256 0;
    contents = refl;
    room = refl;
    text_length = refl;
    cursor = refl;
  };
  same_mode = refl;
}

run-Simulates_example :
    (c' : Interpreter) × (run typing new_interpreter ≡ some (c', (run_editor typing blank).1))
    × Models c' (run_editor typing blank).0
run-Simulates_example = run-Simulates typing new_interpreter blank new-Models (omega arith)

abbrev full_line : Interpreter
full_line = record { buf = replicate 256 b'x'; length = 256; cursor_pos = 256; mode = normal }

abbrev full_editor : Editor
full_editor = record { left = replicate 256 b'x'; right = []; mode = normal }

full-Models : Models full_line full_editor
full-Models = record {
  halves = record { free = []; contents = refl; room = refl; text_length = refl; cursor = refl };
  same_mode = refl;
}

handle_input_overflow_example : handle_input b'y' full_line ≡ none
handle_input_overflow_example =
    handle_input_overflow full_line full_editor b'y' full-Models refl refl refl (omega arith)
      (omega arith) (omega arith)

-- "ab|c": the cursor stands at the "c".
abbrev at_c : Interpreter
at_c = record {
  buf = b'a' ∷ b'b' ∷ b'c' ∷ replicate 253 0;
  length = 3;
  cursor_pos = 2;
  mode = normal;
}

at_c-Represents : Represents at_c (b'b' ∷ b'a' ∷ []) (b'c' ∷ [])
at_c-Represents = record {
  free = replicate 253 0;
  contents = refl;
  room = refl;
  text_length = refl;
  cursor = refl;
}

show-halves_example :
    show at_c
    ≡ some (prompt ∷ char b'a' ∷ char b'b' ∷ reverse_on ∷ char b'c' ∷ reverse_off ∷ clear_line ∷ [])
show-halves_example = show-halves at_c (b'b' ∷ b'a' ∷ []) (b'c' ∷ []) at_c-Represents
