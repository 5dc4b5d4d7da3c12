-- ===== src/Stream/Calls.antt =====
-- Any calls of a stream of lib/bus/include/robobus/network/cstream.hpp, one after another.
use robobus.Base.{ℕ, ◌≡◌, refl, arith, Option, some, List, [], ◌∷◌, ◌++◌, ◌>>=◌}
use robobus.Stream.{Timer, value}
use robobus.Stream.Inbound.{set_state_validate, feed_data, tick_inbound}
use robobus.Stream.Outbound.{set_state_feedback, set_data, tick_outbound}
use robobus.Stream.Control.{
  ControlStream, Event, put_tx_data, feed_rx_data, load_rx_control_data, tick_stream, new_stream,
  after_inbound, after_outbound,
}
use robobus.Stream.Words.{
  HasWords, feed_data-HasWordsIn, set_state_validate-HasWordsIn, tick_inbound-HasWordsIn,
  set_data-HasWordsOut, set_state_feedback-HasWordsOut, tick_outbound-HasWordsOut,
}
use robobus.Stream.Width.{
  IsControl, AllControl, AllControl-append, inbound_events-AllControl, outbound_events-AllControl,
  read_word-IsWord,
}

pub data Call (F D : Type 0) : Type 0 where
  puts : D → Call F D
  feeds : D → Call F D
  loads : List ℕ → Call F D
  waits : F → Call F D

-- What is loaded has at least eight bytes.
abbrev pub AllLoadable : {F D : Type 0} → List (Call F D) → Type 0
AllLoadable [] = Unit
AllLoadable (loads payload ∷ rest) = IsControl payload × AllLoadable rest
AllLoadable (puts d ∷ rest) = AllLoadable rest
AllLoadable (feeds d ∷ rest) = AllLoadable rest
AllLoadable (waits delta ∷ rest) = AllLoadable rest

module _ {F D : Type 0} (t : Timer F) (crc : D → ℕ) where
  unfoldable pub call : Call F D → ControlStream F D → Option (ControlStream F D × List (Event D))
  call (puts d) s = some (put_tx_data t crc d s)
  call (feeds d) s = some (feed_rx_data t crc d s)
  call (loads payload) s = load_rx_control_data t crc payload s
  call (waits delta) s = some (tick_stream t crc delta s)

  unfoldable pub run_calls :
      List (Call F D) → ControlStream F D → Option (ControlStream F D × List (Event D))
  unfolding call
  run_calls [] s = some (s, [])
  run_calls (c ∷ cs) s = call c s >>= λ r. run_calls cs r.0 >>= λ rest. some (rest.0, r.1 ++ rest.1)

  -- A call that comes to its end, with codes and control data of the right width.
  abbrev pub Returns : Option (ControlStream F D × List (Event D)) → Type 0
  Returns r =
      (s : ControlStream F D) × (events : List (Event D)) × (r ≡ some (s, events))
      × HasWords s
      × AllControl events

  put_tx_data-Returns :
      (d : D) (s : ControlStream F D) → HasWords s → Returns (some (put_tx_data t crc d s))
  unfolding put_tx_data
  put_tx_data-Returns d s h =
      let r = set_data t crc d s.outbound in
      (
        (after_outbound t crc s r).0,
        (after_outbound t crc s r).1,
        refl,
        record {
          inbound = h.inbound;
          outbound = set_data-HasWordsOut t crc d s.outbound h.outbound;
        },
        outbound_events-AllControl (value s.inbound.state_feedback) r.1,
      )

  pub feed_rx_data-Returns :
      (d : D) (s : ControlStream F D) → HasWords s → Returns (some (feed_rx_data t crc d s))
  unfolding feed_rx_data
  feed_rx_data-Returns d s h =
      let r = feed_data t crc d s.inbound in
      (
        (after_inbound t crc s r).0,
        (after_inbound t crc s r).1,
        refl,
        record {
          inbound = feed_data-HasWordsIn t crc d s.inbound h.inbound;
          outbound = h.outbound;
        },
        inbound_events-AllControl (value s.outbound.state_validate) r.1,
      )

  tick_stream-Returns :
      (delta : F) (s : ControlStream F D) → HasWords s → Returns (some (tick_stream t crc delta s))
  unfolding tick_stream
  tick_stream-Returns delta s h =
      let r = tick_inbound t crc delta s.inbound in
      let (s1, events1) = after_inbound t crc s r in
      let q = tick_outbound t crc delta s1.outbound in
      let (s2, events2) = after_outbound t crc s1 q in
      (
        s2,
        events1 ++ events2,
        refl,
        record {
          inbound = tick_inbound-HasWordsIn t crc delta s.inbound h.inbound;
          outbound = tick_outbound-HasWordsOut t crc delta s.outbound h.outbound;
        },
        AllControl-append events1 events2
            (inbound_events-AllControl (value s.outbound.state_validate) r.1)
            (outbound_events-AllControl (value s1.inbound.state_feedback) q.1),
      )

  pub load_rx_control_data-Returns :
      (payload : List ℕ) (s : ControlStream F D)
      → IsControl payload
      → HasWords s
      → Returns (load_rx_control_data t crc payload s)
  unfolding load_rx_control_data
  load_rx_control_data-Returns payload s c h =
      let size = c.size in
      let (h_iv, e_iv, w_iv) = read_word-IsWord 0 payload c.bytes (omega arith) in
      let (h_of, e_of, w_of) = read_word-IsWord 4 payload c.bytes (omega arith) in
      let r = set_state_validate t crc h_iv s.inbound in
      let (s1, events1) = after_inbound t crc s r in
      let q = set_state_feedback t crc h_of s1.outbound in
      let (s2, events2) = after_outbound t crc s1 q in
      (
        s2,
        events1 ++ events2,
        rw (e_iv, e_of) refl,
        record {
          inbound = set_state_validate-HasWordsIn t crc h_iv s.inbound w_iv h.inbound;
          outbound = set_state_feedback-HasWordsOut t crc h_of s.outbound w_of h.outbound;
        },
        AllControl-append events1 events2
            (inbound_events-AllControl (value s.outbound.state_validate) r.1)
            (outbound_events-AllControl (value s1.inbound.state_feedback) q.1),
      )

  -- One call, and the others after it.
  then_Returns :
      (c : Call F D) (cs : List (Call F D)) (s : ControlStream F D)
      → Returns (call c s)
      → ((s' : ControlStream F D) → HasWords s' → Returns (run_calls cs s'))
      → Returns (run_calls (c ∷ cs) s)
  unfolding run_calls
  then_Returns c cs s (s1, events1, e1, h1, k1) go =
      let (s2, events2, e2, h2, k2) = go s1 h1 in
      (s2, events1 ++ events2, rw (e1, e2) refl, h2, AllControl-append events1 events2 k1 k2)

  pub run_calls-Returns :
      (cs : List (Call F D)) (s : ControlStream F D)
      → AllLoadable cs
      → HasWords s
      → Returns (run_calls cs s)
  unfolding run_calls call
  run_calls-Returns [] s l h = (s, [], refl, h, tt)
  run_calls-Returns (puts d ∷ cs) s l h =
      then_Returns (puts d) cs s (put_tx_data-Returns d s h) (λ s' h'. run_calls-Returns cs s' l h')
  run_calls-Returns (feeds d ∷ cs) s l h =
      then_Returns (feeds d) cs s (feed_rx_data-Returns d s h)
        (λ s' h'. run_calls-Returns cs s' l h')
  run_calls-Returns (loads payload ∷ cs) s (c, l) h =
      then_Returns (loads payload) cs s (load_rx_control_data-Returns payload s c h)
        (λ s' h'. run_calls-Returns cs s' l h')
  run_calls-Returns (waits delta ∷ cs) s l h =
      then_Returns (waits delta) cs s (tick_stream-Returns delta s h)
        (λ s' h'. run_calls-Returns cs s' l h')

  pub new_stream-HasWords : (d : D) → HasWords (new_stream t crc d)
  new_stream-HasWords d = record {
    inbound = record {
      previous = omega arith;
      calculated = omega arith;
      validate = omega arith;
      feedback = omega arith;
    };
    outbound = record { feedback = omega arith; validate = omega arith };
  }
