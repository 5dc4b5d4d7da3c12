-- ===== src/Stream/CallTests.antt =====
-- A control stream whose data are bytes, with their number for a hash, and a timer that counts.
use robobus.Base.{
  ℕ, ◌-◌, ◌≡◌, refl, arith, true, false, none, ◌⊎◌, some, List, [], ◌∷◌, leb, length,
}
use robobus.Stream.{Timer}
use robobus.Stream.Control.{ControlStream, Event, new_stream}
use robobus.Stream.Words.{HasWords}
use robobus.Stream.Width.{AllControl}
use robobus.Stream.Wiring.{pass_on}
use robobus.Stream.Calls.{Call, puts, feeds, loads, waits, run_calls, new_stream-HasWords}
use robobus.Stream.Short.{all_long, AllBytes}
use robobus.Stream.Loading.{run_calls-HasWords}

abbrev counter : Timer ℕ
counter = record { timeout = 10; at_once = 0; minus = λ a b. a - b; is_over = λ a. leb a 0 }

abbrev size : List ℕ → ℕ
size payload = length payload

abbrev first_stream : ControlStream ℕ (List ℕ)
first_stream = new_stream counter size []

abbrev some_calls : List (Call ℕ (List ℕ))
some_calls =
    puts (1 ∷ 2 ∷ []) ∷ waits 12 ∷ loads (0 ∷ 0 ∷ 0 ∷ 7 ∷ 0 ∷ 0 ∷ 0 ∷ 2 ∷ []) ∷ feeds (9 ∷ []) ∷ []

some_calls-AllBytes : AllBytes some_calls
some_calls-AllBytes = (omega arith, tt)

run_calls-HasWords_example :
    ((all_long some_calls ≡ true)
      × (s' : ControlStream ℕ (List ℕ)) × (events : List (Event (List ℕ))) × (run_calls counter size
            some_calls first_stream
          ≡ some (s', events))
      × HasWords s'
      × AllControl events
      × (u' : ControlStream ℕ (List ℕ)) × (pass_on counter size events first_stream ≡ some u')
      × HasWords u')
    ⊎ ((all_long some_calls ≡ false) × (run_calls counter size some_calls first_stream ≡ none))
run_calls-HasWords_example =
    run_calls-HasWords counter size some_calls first_stream first_stream some_calls-AllBytes
      (new_stream-HasWords counter size []) (new_stream-HasWords counter size [])

-- Two bytes are read past their end.
abbrev two_bytes : List (Call ℕ (List ℕ))
two_bytes = loads (1 ∷ 2 ∷ []) ∷ []

two_bytes_run : run_calls counter size two_bytes first_stream ≡ none
unfolding run_calls robobus.Stream.Control.load_rx_control_data robobus.Stream.Control.read_word
two_bytes_run = refl
