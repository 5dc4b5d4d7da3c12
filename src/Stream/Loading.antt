-- ===== src/Stream/Loading.antt =====
-- What one stream of lib/bus/include/robobus/network/cstream.hpp sends, loaded by another.
use robobus.Base.{
  ℕ, ◌≡◌, refl, sym, subst, arith, true, false, none, ◌⊎◌, inl, inr, Bool-cases, some, List, [],
  ◌∷◌,
}
use mathlib.Core.Option.{some-injective}
use robobus.Stream.{Timer}
use robobus.Stream.Control.{
  ControlStream, Event, tx_ctrl, tx_data, rx_data, rx_ok, tx_ok, feed_rx_data,
}
use robobus.Stream.Words.{HasWords}
use robobus.Stream.Width.{AllControl}
use robobus.Stream.Wiring.{pass_on}
use robobus.Stream.Calls.{
  Call, run_calls, load_rx_control_data-Returns, feed_rx_data-Returns, run_calls-Returns,
}
use robobus.Stream.Short.{all_long, AllBytes, AllBytes-AllLoadable, run_calls-short}

module _ {F : Type 0} (t : Timer F) (crc : List ℕ → ℕ) where
  pass_on-HasWords :
      (events : List (Event (List ℕ))) (s : ControlStream F (List ℕ))
      → AllControl events
      → HasWords s
      → (s' : ControlStream F (List ℕ)) × (pass_on t crc events s ≡ some s') × HasWords s'
  unfolding pass_on
  pass_on-HasWords [] s k h = (s, refl, h)
  pass_on-HasWords (tx_ctrl payload ∷ rest) s (bytes, size, k) h =
      let (s1, events1, e1, h1, k1) =
        load_rx_control_data-Returns t crc payload s
          (record { bytes = bytes; size = omega (arith, size) }) h in
      let (s2, e2, h2) = pass_on-HasWords rest s1 k h1 in (s2, rw e1 e2, h2)
  pass_on-HasWords (tx_data payload ∷ rest) s k h =
      let (s1, events1, e1, h1, k1) = feed_rx_data-Returns t crc payload s h in
      pass_on-HasWords rest (feed_rx_data t crc payload s).0 k (
        subst (λ (x : ControlStream F (List ℕ) × List (Event (List ℕ))). HasWords x.0)
          (sym (some-injective _ _ e1)) h1)
  pass_on-HasWords (rx_data payload ∷ rest) s k h = pass_on-HasWords rest s k h
  pass_on-HasWords (rx_ok ∷ rest) s k h = pass_on-HasWords rest s k h
  pass_on-HasWords (tx_ok ∷ rest) s k h = pass_on-HasWords rest s k h

  -- Whatever data a stream gets to send and to check, whatever bytes it loads as control data, and
  -- however much time passes: if every control data that it loads is eight bytes at least, each call
  -- comes to its end, all codes stay words of 32 bits, and each control message that is sent is
  -- eight bytes, which the other side can load without a read past the end of a message, and its
  -- codes stay words too; if some control data is shorter, `LoadRxControlData` reads past its end,
  -- and there is no result. The codes of both sides are words at first, as those of a new stream are.
  pub run_calls-HasWords :
      (cs : List (Call F (List ℕ))) (s u : ControlStream F (List ℕ))
      → AllBytes cs
      → HasWords s
      → HasWords u
      → ((all_long cs ≡ true)
          × (s' : ControlStream F (List ℕ)) × (events : List (Event (List ℕ))) × (run_calls t crc cs
                s
              ≡ some (s', events))
          × HasWords s'
          × AllControl events
          × (u' : ControlStream F (List ℕ)) × (pass_on t crc events u ≡ some u')
          × HasWords u')
        ⊎ ((all_long cs ≡ false) × (run_calls t crc cs s ≡ none))
  run_calls-HasWords cs s u l h k = elim (Bool-cases (all_long cs)) [
    | inl long ↦
        let (s', events, e, h', sent) =
          run_calls-Returns t crc cs s (AllBytes-AllLoadable cs l long) h in
        let (u', passed, k') = pass_on-HasWords events u sent k in
        inl (long, s', events, e, h', sent, u', passed, k')
    | inr short ↦ inr (short, run_calls-short t crc cs s short)
  ]
