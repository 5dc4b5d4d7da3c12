-- ===== src/Console.antt =====
-- lib/runtime/include/robobus/console/interpreter.hpp: the line editor of the console. The buffer
-- is the array of 256 bytes; a read or a write outside of it is undefined in the source, and here
-- the step then gives `none`.
pub mod Memory
pub mod Editor
pub mod Refinement
pub mod Runs
pub mod Sessions
pub mod Display
mod Tests
use robobus.Base.{
  ◌++◌, ℕ, suc, zero, ◌+◌, ◌-◌, min, Bool, true, false, Option, none, some, List, [], ◌∷◌, ◌==◌,
  ltb, if◌then◌else◌, get_elem?, set, take, length, replicate, ◌>>=◌, ◌||◌,
}

pub data Mode : Type 0 where
  normal escape escape_bracket : Mode

pub record Interpreter : Type 0 where
  pub buf : List ℕ
  pub length : ℕ
  pub cursor_pos : ℕ
  pub mode : Mode

abbrev pub new_interpreter : Interpreter
new_interpreter = record { buf = replicate 256 0; length = 0; cursor_pos = 0; mode = normal }

-- What a step gives: the next state, and the line that `HandleInputLine` is called with, if any.
abbrev pub Outcome : Type 0
Outcome = Option (Interpreter × Option (List ℕ))

abbrev pub load : ℕ → List ℕ → Option ℕ
load i buf = get_elem? buf i

abbrev pub store : ℕ → ℕ → List ℕ → Option (List ℕ)
store i v buf = if ltb i (robobus.Base.length buf) then some (set buf i v) else none

-- `for (i = start + rounds; i > start; i--) buf[i] = buf[i - 1];`
unfoldable pub shift_right : ℕ → ℕ → List ℕ → Option (List ℕ)
shift_right zero start buf = some buf
shift_right (suc rounds) start buf = do
  v ← load (start + rounds) buf
  buf' ← store (start + suc rounds) v buf
  shift_right rounds start buf'

-- `for (i = start; i < start + rounds; i++) buf[i - 1] = buf[i];`
unfoldable pub shift_left : ℕ → ℕ → List ℕ → Option (List ℕ)
shift_left zero start buf = some buf
shift_left (suc rounds) start buf = do
  v ← load start buf
  buf' ← store (start - 1) v buf
  shift_left rounds (suc start) buf'

-- The cases of `HandleNormalInput`.
unfoldable pub enter : Interpreter → Outcome
enter c =
    if c.length == 0
    then some (c, none)
    else some (record c { length = 0; cursor_pos = 0 }, some (take c.length c.buf))

unfoldable pub backspace : Interpreter → Outcome
backspace c = if c.cursor_pos == 0 then some (c, none) else do
  buf' ← shift_left (c.length - c.cursor_pos) c.cursor_pos c.buf
  some (record c { buf = buf'; length = c.length - 1; cursor_pos = c.cursor_pos - 1 }, none)

unfoldable pub delete : Interpreter → Outcome
delete c = if c.cursor_pos == c.length then some (c, none) else do
  buf' ← shift_left (c.length - (c.cursor_pos + 1)) (c.cursor_pos + 1) c.buf
  some (record c { buf = buf'; length = c.length - 1 }, none)

unfoldable pub insert : ℕ → Interpreter → Outcome
insert ch c = do
  moved ← shift_right (c.length - c.cursor_pos) c.cursor_pos c.buf
  buf' ← store c.cursor_pos ch moved
  some (record c { buf = buf'; length = c.length + 1; cursor_pos = c.cursor_pos + 1 }, none)

unfoldable pub handle_normal_input : ℕ → Interpreter → Outcome
handle_normal_input ch c =
    if ch == 0x0a || ch == 0x0d
    then enter c
    else if ch == 0x1b
    then some (record c { mode = escape }, none)
    else if ch == 0x7f
    then backspace c
    else if ch == 0x7e
    then delete c
    else insert ch c

unfoldable pub handle_escape_input : ℕ → Interpreter → Outcome
handle_escape_input ch c =
    if ch == b'['
    then some (record c { mode = escape_bracket }, none)
    else some (record c { mode = normal }, none)

unfoldable pub handle_escape_bracket_input : ℕ → Interpreter → Outcome
handle_escape_bracket_input ch c =
    let cursor =
      if ch == b'D'
      then c.cursor_pos - 1
      else if ch == b'C'
      then min c.length (c.cursor_pos + 1)
      else c.cursor_pos in
    some (record c { cursor_pos = cursor; mode = normal }, none)

unfoldable pub handle_input : ℕ → Interpreter → Outcome
handle_input ch c = elim c.mode [
  | normal ↦ handle_normal_input ch c
  | escape ↦ handle_escape_input ch c
  | escape_bracket ↦ handle_escape_bracket_input ch c
]

unfoldable pub get_buffer : Interpreter → List ℕ
get_buffer c = take c.length c.buf

abbrev pub keep_line : Option (List ℕ) → List (List ℕ) → List (List ℕ)
keep_line none lines = lines
keep_line (some line) lines = line ∷ lines

-- The characters that `Viewer` reads, one call of `HandleInput` for each, with the lines that
-- `HandleInputLine` is called with on the way.
unfoldable pub run : List ℕ → Interpreter → Option (Interpreter × List (List ℕ))
run [] c = some (c, [])
run (ch ∷ rest) c = elim (handle_input ch c) [
  | none ↦ none
  | some (c', line) ↦ (run rest c' >>= λ r. some (r.0, keep_line line r.1))
]

-- What `Show` prints: characters, and the escape sequences that it uses.
pub data Token : Type 0 where
  prompt reverse_on reverse_off clear_line : Token
  char : ℕ → Token

-- The loop of `Show`, from `i` on for the rounds that are left.
unfoldable pub show_from : ℕ → ℕ → Interpreter → Option (List Token)
show_from zero i c = some []
show_from (suc rounds) i c = do
  ch ← load i c.buf
  rest ← show_from rounds (suc i) c
  some (if i == c.cursor_pos then reverse_on ∷ char ch ∷ reverse_off ∷ rest else char ch ∷ rest)

unfoldable pub show : Interpreter → Option (List Token)
unfolding show_from
show c = do
  line ← show_from c.length 0 c
  let tail =
      if c.cursor_pos == c.length
      then reverse_on ∷ char b' ' ∷ reverse_off ∷ clear_line ∷ []
      else clear_line ∷ []
  some (prompt ∷ line ++ tail)
