-- ===== src/Signals/Tests.antt =====
-- Two signals whose slots are numbers.
use robobus.Base.{ℕ, ◌≡◌, refl, true, some, List, [], ◌∷◌, ◌++◌}
use robobus.Signals.{Store, no_signals, make_signal, alive, call_all, fire, connect_all}
use robobus.Signals.Slots.{slots_for, reached, fire-connect_all}

abbrev two_signals : Store ℕ
two_signals = (make_signal (make_signal (no_signals {S = ℕ})).0).0

abbrev connections : List (ℕ × ℕ)
connections = (0, 10) ∷ (1, 20) ∷ (0, 30) ∷ (2, 40) ∷ []

abbrev datum : ℕ
datum = 7

there : alive 0 two_signals ≡ true
unfolding alive make_signal
there = refl

fire-connect_all_example :
    (fire 0 datum (connect_all connections two_signals).0
      ≡ some (call_all datum ((two_signals.signal 0).slots ++ slots_for 0 connections)))
    × ((connect_all connections two_signals).1 ≡ reached two_signals connections)
fire-connect_all_example = fire-connect_all connections 0 datum two_signals there

called : fire 0 datum (connect_all connections two_signals).0 ≡ some ((10, 7) ∷ (30, 7) ∷ [])
unfolding fire connect_all make_signal
called = refl
