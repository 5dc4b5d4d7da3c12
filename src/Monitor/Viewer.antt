-- ===== src/Monitor/Viewer.antt =====
-- `Viewer` of lib/runtime/include/robobus/monitor/viewer.hpp: what it prints in one turn of its loop,
-- byte by byte, and what it does with a character that was read. A character is its unsigned
-- value, and is printable as in the C locale. What is undefined in the source gives `none`.
use robobus.Base.{
  ℕ, ◌+◌, ◌-◌, ◌/◌, ◌%◌, Bool, Option, none, some, List, [], ◌∷◌, ◌++◌, ◌==◌, ltb, leb, ◌&&◌,
  if◌then◌else◌, length, replicate, ◌>>=◌,
}
use robobus.Base.Text.{codes}
use robobus.Console.{
  Interpreter, Token, prompt, reverse_on, reverse_off, clear_line, char, show, handle_input,
  new_interpreter,
}
use robobus.Monitor.{Line, LogMonitor, lines_of}

-- The levels of the logger that the `switch` names.
pub data Level : Type 0 where
  debug info error verbose trace : Level
  other : ℕ → Level

-- What an `Entry` of the bus shows.
pub record Entry : Type 0 where
  pub display_name : List ℕ
  pub text : List ℕ

pub record Viewer : Type 0 where
  pub command_buf : List ℕ
  pub input : Interpreter

abbrev pub new_viewer : Viewer
new_viewer = record { command_buf = replicate 256 0; input = new_interpreter }

-- `printf("%s", …)` of a string that ends in its own zero, and of an array.
unfoldable pub print_string : List ℕ → List ℕ
print_string [] = []
print_string (c ∷ rest) = let others = print_string rest in if c == 0 then [] else c ∷ others

unfoldable pub print_array : List ℕ → Option (List ℕ)
print_array [] = none
print_array (c ∷ rest) =
    let others = print_array rest in
    if c == 0 then some [] else (others >>= λ text. some (c ∷ text))

-- `HandleInputLine`: `memset` and `memcpy`.
unfoldable pub handle_input_line : List ℕ → Option (List ℕ)
handle_input_line line =
    if leb (length line) 256 then some (line ++ replicate (256 - length line) 0) else none

abbrev pub escape : List ℕ → List ℕ
escape text = 0x1b ∷ text

abbrev pub new_line : List ℕ
new_line = escape (codes "[K") ++ 0x0a ∷ []

unfoldable pub is_printable : ℕ → Bool
is_printable c = leb 0x20 c && leb c 0x7e

unfoldable pub hex_digit : ℕ → ℕ
hex_digit n = if ltb n 10 then b'0' + n else b'a' + (n - 10)

-- `printf("\\x%02x", c)`
unfoldable pub show_char : ℕ → List ℕ
unfolding is_printable hex_digit
show_char c =
    if is_printable c then c ∷ [] else 0x5c ∷ b'x' ∷ hex_digit (c / 16) ∷ hex_digit (c % 16) ∷ []

unfoldable pub show_str : List ℕ → List ℕ
unfolding show_char
show_str [] = []
show_str (c ∷ rest) = show_char c ++ show_str rest

abbrev pub level_letter : Level → ℕ
level_letter debug = b'D'
level_letter info = b'I'
level_letter error = b'E'
level_letter verbose = b'V'
level_letter trace = b'T'
level_letter (other n) = b'?'

unfoldable pub print_line : Line Level → List ℕ
unfolding show_str
print_line line =
    level_letter line.level ∷ codes ": "
    ++ escape (codes "[33m")
    ++ show_str line.tag
    ++ escape (codes "[m: ")
    ++ show_str line.text
    ++ new_line

unfoldable pub print_lines : List (Line Level) → List ℕ
unfolding print_line
print_lines [] = []
print_lines (line ∷ rest) = print_line line ++ print_lines rest

unfoldable pub print_entries : List Entry → List ℕ
unfolding print_string
print_entries [] = []
print_entries (entry ∷ rest) =
    print_string entry.display_name
    ++ codes ": "
    ++ print_string entry.text
    ++ new_line
    ++ print_entries rest

-- What `Show` of the console prints, in bytes.
abbrev pub token_bytes : Token → List ℕ
token_bytes prompt = codes "$ "
token_bytes reverse_on = escape (codes "[7m")
token_bytes reverse_off = escape (codes "[0m")
token_bytes clear_line = new_line
token_bytes (char c) = c ∷ []

unfoldable pub print_tokens : List Token → List ℕ
print_tokens [] = []
print_tokens (t ∷ rest) = token_bytes t ++ print_tokens rest

abbrev pub heading : List ℕ → List ℕ
heading title = escape (codes "[1;34m# ") ++ title ++ escape (codes "[m") ++ new_line

-- One turn up to `input.Show()`.
unfoldable pub frame : List Entry → LogMonitor Level → Viewer → Option (List ℕ)
unfolding print_array print_entries print_lines print_tokens
frame entries log v = do
  command ← print_array v.command_buf
  lines ← lines_of log
  line ← show v.input
  some (
      escape (codes "[;H")
      ++ codes "Cmd: "
      ++ command
      ++ (new_line
          ++ heading (codes "Monitor")
          ++ print_entries entries
          ++ heading (codes "Logger")
          ++ print_lines lines
          ++ print_tokens line))

-- Before the first turn: the screen is cleared and the cursor hidden.
abbrev pub opening : List ℕ
opening = escape (codes "[2J") ++ escape (codes "[;H") ++ escape (codes "[?25l")

-- The rest of the turn, with what `ReadChar` gave.
unfoldable pub react : Option ℕ → Viewer → Option Viewer
unfolding handle_input_line
react none v = some v
react (some ch) v = handle_input ch v.input >>= λ r. elim r.1 [
  | none ↦ some (record v { input = r.0 })
  | some line ↦ handle_input_line line >>= λ buf. some (record { command_buf = buf; input = r.0 })
]
