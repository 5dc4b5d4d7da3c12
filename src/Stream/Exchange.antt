-- ===== src/Stream/Exchange.antt =====
-- From one end of a control stream to the other, on `ControlStream` of lib/bus/include/robobus/network/
-- cstream.hpp.
use robobus.Base.{ℕ, List, [], ◌∷◌, ◌++◌}
use robobus.Stream.{mix_code, Timer, value}
use robobus.Stream.Inbound.{set_state_validate}
use robobus.Stream.Outbound.{Outbound, set_state_feedback}
use robobus.Stream.Control.{
  ControlStream, Event, tx_ctrl, tx_data, rx_data, rx_ok, tx_ok, inbound_events, outbound_events,
  put_tx_data,
}

module _ {F D : Type 0} (t : Timer F) (crc : D → ℕ) where
  -- The data that a side delivers, among its events.
  unfoldable pub received : List (Event D) → List D
  received [] = []
  received (tx_ctrl payload ∷ rest) = received rest
  received (tx_data d ∷ rest) = received rest
  received (rx_data d ∷ rest) = d ∷ received rest
  received (rx_ok ∷ rest) = received rest
  received (tx_ok ∷ rest) = received rest

  -- What a side does with the control data made of two codes.
  abbrev loaded : ℕ → ℕ → ControlStream F D → ControlStream F D × List (Event D)
  loaded h_iv h_of s =
      let r = set_state_validate t crc h_iv s.inbound in
      let q = set_state_feedback t crc h_of s.outbound in
      (
        record { inbound = r.0; outbound = q.0 },
        inbound_events (value s.outbound.state_validate) r.1
            ++ outbound_events (value r.0.state_feedback) q.1,
      )

  module _ (s : ℕ) (d : D) (a b : ControlStream F D) where
    abbrev code : ℕ
    code = mix_code (crc d) s

    -- The other side after the code.
    abbrev pub informed : ControlStream F D × List (Event D)
    informed = loaded code (value a.inbound.state_feedback) b

    -- The confirmation at the side that has sent the datum.
    abbrev pub informed_back : ControlStream F D × List (Event D)
    informed_back = loaded (value b.outbound.state_validate) code (put_tx_data t crc d a).0
