-- ===== src/Monitor/Tests.antt =====
-- A monitor with a few lines.
use robobus.Base.{ℕ, ◌≡◌, some, List, [], ◌∷◌, ◌++◌, replicate, length}
use robobus.Monitor.{Line, no_log, new_monitor, lines_of, add_lines}
use robobus.Monitor.Ring.{lines_of-add_lines}

abbrev line : ℕ → Line ℕ
line n = record { level = n; tag = []; text = n ∷ [] }

abbrev logged : List (Line ℕ)
logged = line 1 ∷ line 2 ∷ line 3 ∷ []

lines_of-add_lines_example :
    (lines_of (add_lines logged (new_monitor 0))
      ≡ some (replicate 8 (no_log 0) ++ line 1 ∷ line 2 ∷ line 3 ∷ []))
    × (length (replicate 8 (no_log 0) ++ logged) ≡ 11)
lines_of-add_lines_example = lines_of-add_lines 0 logged
