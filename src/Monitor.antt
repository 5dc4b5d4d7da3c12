-- ===== src/Monitor.antt =====
-- `LogMonitor` of lib/runtime/include/robobus/monitor/srobo1_log.hpp: the last log lines, in a ring. An
-- iterator is the index of the line that it points to. The level is a value of the logger's type.
pub mod Ring
pub mod Viewer
pub mod Screen
pub mod Bus
pub mod Links
pub mod Entries
mod Tests
mod ScreenTests
use robobus.Base.{
  ℕ, zero, suc, ◌+◌, Option, none, some, List, [], ◌∷◌, ◌==◌, if◌then◌else◌, get_elem?, set,
  replicate, ◌>>=◌,
}

pub record Line (Level : Type 0) : Type 0 where
  pub level : Level
  pub tag : List ℕ
  pub text : List ℕ

pub record LogMonitor (Level : Type 0) : Type 0 where
  pub lines : List (Line Level)
  pub head : ℕ
  pub pointer : ℕ

-- `Iterator::operator++`
unfoldable pub next : ℕ → ℕ
next i = if i == 11 then 0 else i + 1

-- "-- No log --"
abbrev pub no_log : {Level : Type 0} → Level → Line Level
no_log info = record {
  level = info;
  tag = [];
  text = b'-' ∷ b'-' ∷ b' ' ∷ b'N' ∷ b'o' ∷ b' ' ∷ b'l' ∷ b'o' ∷ b'g' ∷ b' ' ∷ b'-' ∷ b'-' ∷ [];
}

abbrev pub new_monitor : {Level : Type 0} → Level → LogMonitor Level
new_monitor info = record { lines = replicate 12 (no_log info); head = 0; pointer = 11 }

module _ {Level : Type 0} where
  unfoldable pub add_line : Line Level → LogMonitor Level → LogMonitor Level
  add_line line m = record {
    lines = set m.lines m.pointer line;
    head = next m.head;
    pointer = next m.pointer;
  }

  -- The loop from `begin()` to `end()`, for as many steps at most. `none`: it has not come to its
  -- end, or has left the array.
  unfoldable pub walk : ℕ → ℕ → ℕ → List (Line Level) → Option (List (Line Level))
  walk zero i end_ lines = none
  walk (suc steps) i end_ lines =
      let rest = walk steps (next i) end_ lines in
      if i == end_
      then some []
      else (get_elem? lines i >>= λ line. rest >>= λ after. some (line ∷ after))

  -- `Lines`
  unfoldable pub lines_of : LogMonitor Level → Option (List (Line Level))
  lines_of m = walk 12 m.head m.pointer m.lines

  unfoldable pub add_lines : List (Line Level) → LogMonitor Level → LogMonitor Level
  add_lines [] m = m
  add_lines (line ∷ rest) m = add_lines rest (add_line line m)
