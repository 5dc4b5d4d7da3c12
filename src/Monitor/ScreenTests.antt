-- ===== src/Monitor/ScreenTests.antt =====
-- A viewer on a console in which a command was typed.
use robobus.Base.{
  ℕ, ◌≡◌, ◌≢◌, ◌<◌, ◌≤◌, ◌*◌, refl, arith, none, some, List, [], ◌∷◌, ◌++◌, replicate, length, All,
  ◌>>=◌, ◌==◌, if◌then◌else◌,
}
use robobus.Base.Text.{codes}
use robobus.Console.{get_buffer}
use robobus.Monitor.Bus.{Bus, visit, remove_entry}
use robobus.Monitor.Entries.{remove_entry-stays}
use robobus.Monitor.{LogMonitor, new_monitor}
use robobus.Monitor.Viewer.{
  Level, info, Viewer, new_viewer, escape, frame, react, show_str, print_array, handle_input_line,
}
use robobus.Monitor.Screen.{
  IsPrintable, show_str-IsPrintable, print_array-handle_input_line, react-frame,
}

-- A new line, a letter, and a byte above the printable ones.
abbrev noise : List ℕ
noise = 0x0a ∷ b'a' ∷ 0xff ∷ []

noise_shown : show_str noise ≡ codes "\\x0aa\\xff"
unfolding show_str
noise_shown = refl

show_str-IsPrintable_example :
    All IsPrintable (show_str noise)
    × (length noise ≤ length (show_str noise))
    × (length (show_str noise) ≤ 4 * length noise)
    × (All IsPrintable noise → show_str noise ≡ noise)
show_str-IsPrintable_example = show_str-IsPrintable noise (omega arith)

abbrev typed : Viewer
typed = record new_viewer {
  input = record new_viewer.input {
    buf = b'o' ∷ b'n' ∷ replicate 254 0;
    length = 2;
    cursor_pos = 2;
  };
}

on_is_text : All (λ c. c ≢ 0) (get_buffer typed.input)
unfolding get_buffer
on_is_text = (λ e. omega arith, (λ e. omega arith, tt))

abbrev clean_log : LogMonitor Level
clean_log = new_monitor info

react-frame_example :
    (v' : Viewer) × (react (some 0x0a) typed ≡ some v')
    × (v'.input.length ≡ 0)
    × ((shown : List ℕ)
        → frame [] clean_log v' ≡ some shown
        → (rest : List ℕ) × (shown
            ≡ (escape (codes "[;H") ++ codes "Cmd: ") ++ get_buffer typed.input ++ rest))
react-frame_example = react-frame typed [] clean_log refl (omega arith) (omega arith) on_is_text

abbrev command : List ℕ
command = b'o' ∷ b'n' ∷ []

print_array-handle_input_line_example :
    (length command < 256 → (handle_input_line command >>= λ buf. print_array buf) ≡ some command)
    × (length command ≡ 256
        → (handle_input_line command ≡ some command) × (print_array command ≡ none))
    × (256 < length command → handle_input_line command ≡ none)
print_array-handle_input_line_example =
    print_array-handle_input_line command (λ e. omega arith, (λ e. omega arith, tt))

abbrev no_entries : Bus ℕ
no_entries = record { head = none; tail = none; link = λ a. none; shows = λ a. a * 10 }

abbrev three_entries : Bus ℕ
three_entries = record no_entries {
  head = some 4;
  tail = some 7;
  link = λ a. if a == 4 then some 2 else if a == 2 then some 7 else none;
}

remove_entry-stays_example :
    (m : Bus ℕ) × (remove_entry (λ p q. q) 1 2 three_entries ≡ some m)
    × (visit 2 m.head m ≡ some (4 ∷ 2 ∷ []))
    × (m.shows 2 ≡ 70)
    × ((x : ℕ) → x ≢ 2 → m.shows x ≡ three_entries.shows x)
remove_entry-stays_example =
    remove_entry-stays (λ p q. q) (λ p q. refl) three_entries 4 2 7 [] []
      (refl, (refl, (refl, refl))) (omega arith)
