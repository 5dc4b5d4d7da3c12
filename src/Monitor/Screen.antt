-- ===== src/Monitor/Screen.antt =====
-- What the operator sees of commands and log lines, on lib/runtime/include/robobus/monitor/viewer.hpp.
use mathlib.Core.List.{append-nil}
use mathlib.Core.Option.{some-injective}
use robobus.Base.{
  ℕ, suc, ◌-◌, ◌*◌, ◌/◌, ◌%◌, ◌<◌, ◌≤◌, ◌≡◌, ◌≢◌, refl, sym, ap, arith, true, false, none, some,
  List, [], ◌∷◌, ◌++◌, leb, length, length-append, length-take, replicate, ◌>>=◌, All, All-append,
  ==-ne, Bool-cases, Option-cases, inl, inr,
}
use robobus.Base.Text.{codes}
use robobus.Console.{
  Interpreter, normal, get_buffer, enter, handle_normal_input, handle_input, show,
}
use robobus.Monitor.{LogMonitor, lines_of}
use robobus.Monitor.Viewer.{
  Level, Entry, Viewer, print_array, handle_input_line, is_printable, hex_digit, show_char,
  show_str, escape, frame, react,
}

-- A printable character of the C locale.
abbrev pub IsPrintable : ℕ → Type 0
IsPrintable c = (0x20 ≤ c) × (c ≤ 0x7e)

hex_digit-IsPrintable : (n : ℕ) → n < 16 → IsPrintable (hex_digit n)
unfolding hex_digit
hex_digit-IsPrintable n h = ground arith

is_printable_iff : (c : ℕ) → is_printable c ≡ true → IsPrintable c
unfolding is_printable
is_printable_iff c h = ground arith

printable : (c : ℕ) → IsPrintable c → is_printable c ≡ true
unfolding is_printable
printable c h = ground arith

length-show_char : (c : ℕ) → (1 ≤ length (show_char c)) × (length (show_char c) ≤ 4)
unfolding show_char
length-show_char c = elim (Bool-cases (is_printable c)) [
  | inl p ↦ rw p (omega arith)
  | inr p ↦ rw p (omega arith)
]

show_char-IsPrintable : (c : ℕ) → c < 256 → All IsPrintable (show_char c)
unfolding show_char
show_char-IsPrintable c h = elim (Bool-cases (is_printable c)) [
  | inl p ↦ rw p (is_printable_iff c p, tt)
  | inr p ↦ rw p (
    omega arith,
    (
      omega arith,
      (
        hex_digit-IsPrintable (c / 16) (omega arith),
        (hex_digit-IsPrintable (c % 16) (omega arith), tt),
      ),
    ),
  )
]

-- Whatever the bytes of a logged text are, it is shown in printable characters only, so that it
-- moves no cursor and begins no line; a text of printable characters is shown as it is, and no
-- text becomes longer than four times.
pub show_str-IsPrintable :
    (text : List ℕ)
    → All (λ c. c < 256) text
    → All IsPrintable (show_str text)
      × (length text ≤ length (show_str text))
      × (length (show_str text) ≤ 4 * length text)
      × (All IsPrintable text → show_str text ≡ text)
unfolding show_str
show_str-IsPrintable [] h = (tt, omega arith, omega arith, λ _. refl)
show_str-IsPrintable (c ∷ text) (byte, h) =
    let (shown, more, less, same) = show_str-IsPrintable text h in
    let size = length-append (show_char c) (show_str text) in
    let one = length-show_char c in
    (
      All-append IsPrintable (show_char c) (show_str text) (show_char-IsPrintable c byte) shown,
      omega arith,
      omega arith,
      λ (p, ps). rw (printable c p, show_char) (ap (c ∷◌) (same ps)),
    )

print_array-zeros :
    (line : List ℕ) (n : ℕ)
    → All (λ c. c ≢ 0) line
    → print_array (line ++ replicate (suc n) 0) ≡ some line
unfolding print_array
print_array-zeros [] n h = refl
print_array-zeros (c ∷ line) n (p, h) = rw (==-ne c 0 p, print_array-zeros line n h) refl

print_array-full : (line : List ℕ) → All (λ c. c ≢ 0) line → print_array line ≡ none
unfolding print_array
print_array-full [] h = refl
print_array-full (c ∷ line) (p, h) = rw (==-ne c 0 p, print_array-full line h) refl

-- A command without a zero is shown as it was entered, if it is shorter than 256 characters; one of
-- 256 fills the array, and printing it reads on behind it; a longer one is written outside.
pub print_array-handle_input_line :
    (line : List ℕ)
    → All (λ c. c ≢ 0) line
    → (length line < 256 → (handle_input_line line >>= λ buf. print_array buf) ≡ some line)
      × (length line ≡ 256 → (handle_input_line line ≡ some line) × (print_array line ≡ none))
      × (256 < length line → handle_input_line line ≡ none)
unfolding handle_input_line
print_array-handle_input_line line h = (
  λ few.
      let left : 256 - length line ≡ suc (255 - length line) = omega arith in
      let fits : leb (length line) 256 ≡ true = ground arith in
      rw (fits, left) (print_array-zeros line (255 - length line) h),
  λ full.
      let fits : leb (length line) 256 ≡ true = ground arith in
      let none_left : 256 - length line ≡ 0 = omega arith in
      (rw (fits, none_left) (ap some (append-nil line)), print_array-full line h),
  λ many. let big : leb (length line) 256 ≡ false = ground arith in rw big refl,
)

handle_input-enter :
    (c : Interpreter)
    → c.mode ≡ normal
    → 0 < c.length
    → handle_input 0x0a c ≡ some (record c { length = 0; cursor_pos = 0 }, some (get_buffer c))
unfolding handle_input handle_normal_input enter get_buffer
handle_input-enter c normal_ some_ = ground arith

handle_input_line-short :
    (line : List ℕ)
    → length line < 256
    → handle_input_line line ≡ some (line ++ replicate (suc (255 - length line)) 0)
unfolding handle_input_line
handle_input_line-short line few =
    let left : 256 - length line ≡ suc (255 - length line) = omega arith in
    let fits : leb (length line) 256 ≡ true = ground arith in rw (fits, left) refl

length-get_buffer : (c : Interpreter) → length (get_buffer c) ≤ c.length
unfolding get_buffer
length-get_buffer c = omega (arith, length-take c.length c.buf)

frame-command :
    (v : Viewer) (entries : List Entry) (log : LogMonitor Level) (command shown : List ℕ)
    → print_array v.command_buf ≡ some command
    → frame entries log v ≡ some shown
    → (rest : List ℕ) × (shown ≡ (escape (codes "[;H") ++ codes "Cmd: ") ++ command ++ rest)
unfolding frame
frame-command v entries log command shown e f = elim (Option-cases (lines_of log)) [
  | inl nothing ↦ absurd (let x = rw (e, nothing, frame) at f in cc)
  | inr (lines, g) ↦ elim (Option-cases (show v.input)) [
    | inl nothing ↦ absurd (let x = rw (e, g, nothing, frame) at f in cc)
    | inr (line, i) ↦ (_, sym (some-injective _ _ (rw (e, g, i, frame) at f)))
  ]
]

-- The enter key, in the normal mode with a line of 1 to 255 characters in the console of which none
-- is zero, empties the console, and what the viewer prints in its next turn, if it gets to the end
-- of it, begins with the line, whatever the entries and the log are.
pub react-frame :
    (v : Viewer) (entries : List Entry) (log : LogMonitor Level)
    → v.input.mode ≡ normal
    → 0 < v.input.length
    → v.input.length < 256
    → All (λ c. c ≢ 0) (get_buffer v.input)
    → (v' : Viewer) × (react (some 0x0a) v ≡ some v')
      × (v'.input.length ≡ 0)
      × ((shown : List ℕ)
          → frame entries log v' ≡ some shown
          → (rest : List ℕ) × (shown
              ≡ (escape (codes "[;H") ++ codes "Cmd: ") ++ get_buffer v.input ++ rest))
unfolding react
react-frame v entries log normal_ some_ few h =
    let line = get_buffer v.input in
    let short : length line < 256 = omega (arith, length-get_buffer v.input) in
    let v' : Viewer = record {
      command_buf = line ++ replicate (suc (255 - length line)) 0;
      input = record v.input { length = 0; cursor_pos = 0 };
    } in
    let shows = print_array-zeros line (255 - length line) h in
    (
      v',
      rw (handle_input-enter v.input normal_ some_, handle_input_line-short line short) refl,
      refl,
      λ shown e. frame-command v' entries log line shown shows e,
    )
