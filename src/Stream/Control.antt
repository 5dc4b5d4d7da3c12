-- ===== src/Stream/Control.antt =====
-- `ControlStream` of lib/bus/include/robobus/network/cstream.hpp: both directions of one side.
use robobus.Base.{
  ℕ, ◌+◌, ◌*◌, ◌/◌, ◌^◌, Option, some, List, [], ◌∷◌, ◌++◌, get_elem?, bit_and, bit_or, ◌>>=◌,
}
use robobus.Stream.{Timer, value}
use robobus.Stream.Inbound.{
  Inbound, InboundEvent, feedback_updated, delivered, inbound_ok, new_inbound, feed_data,
  set_state_validate, tick_inbound,
}
use robobus.Stream.Outbound.{
  Outbound, OutboundEvent, data_updated, validate_updated, outbound_ok, new_outbound, set_data,
  set_state_feedback, tick_outbound,
}

pub record ControlStream (F D : Type 0) : Type 0 where
  pub inbound : Inbound F D
  pub outbound : Outbound F D

pub data Event (D : Type 0) : Type 0 where
  tx_ctrl : List ℕ → Event D
  tx_data : D → Event D
  rx_data : D → Event D
  rx_ok : Event D
  tx_ok : Event D

-- The bytes of `ProcessTxControlData`.
unfoldable pub control_data : ℕ → ℕ → List ℕ
control_data h_ov h_if =
    bit_and (h_ov / 2 ^ 24) 0xff
    ∷ bit_and (h_ov / 2 ^ 16) 0xff
    ∷ bit_and (h_ov / 2 ^ 8) 0xff
    ∷ bit_and (h_ov / 2 ^ 0) 0xff
    ∷ bit_and (h_if / 2 ^ 24) 0xff
    ∷ bit_and (h_if / 2 ^ 16) 0xff
    ∷ bit_and (h_if / 2 ^ 8) 0xff
    ∷ bit_and (h_if / 2 ^ 0) 0xff
    ∷ []

-- Four bytes from the place `i` on, the highest first.
unfoldable pub read_word : ℕ → List ℕ → Option ℕ
read_word i payload = get_elem? payload i >>= λ a. get_elem? payload (i + 1) >>= λ b.
    get_elem? payload (i + 2) >>= λ c. get_elem? payload (i + 3) >>= λ d.
    some (bit_or (bit_or (bit_or (a * 2 ^ 24) (b * 2 ^ 16)) (c * 2 ^ 8)) d)

-- What the signals of the two halves set off. Each change of a state sends the control data, in
-- which the state of the other half is as it stands.
unfoldable pub inbound_events : {D : Type 0} → ℕ → List (InboundEvent D) → List (Event D)
inbound_events h_ov [] = []
inbound_events h_ov (feedback_updated h_if ∷ rest) =
    tx_ctrl (control_data h_ov h_if) ∷ inbound_events h_ov rest
inbound_events h_ov (delivered d ∷ rest) = rx_data d ∷ inbound_events h_ov rest
inbound_events h_ov (inbound_ok ∷ rest) = rx_ok ∷ inbound_events h_ov rest

unfoldable pub outbound_events : {D : Type 0} → ℕ → List (OutboundEvent D) → List (Event D)
outbound_events h_if [] = []
outbound_events h_if (data_updated d ∷ rest) = tx_data d ∷ outbound_events h_if rest
outbound_events h_if (validate_updated h_ov ∷ rest) =
    tx_ctrl (control_data h_ov h_if) ∷ outbound_events h_if rest
outbound_events h_if (outbound_ok ∷ rest) = tx_ok ∷ outbound_events h_if rest

module _ {F D : Type 0} (t : Timer F) (crc : D → ℕ) where
  abbrev pub new_stream : D → ControlStream F D
  new_stream datum = record { inbound = new_inbound t crc datum; outbound = new_outbound t crc }

  abbrev pub after_inbound :
      ControlStream F D → Inbound F D × List (InboundEvent D) → ControlStream F D × List (Event D)
  after_inbound s r =
      (record s { inbound = r.0 }, inbound_events (value s.outbound.state_validate) r.1)

  abbrev pub after_outbound :
      ControlStream F D → Outbound F D × List (OutboundEvent D) → ControlStream F D × List (Event D)
  after_outbound s r =
      (record s { outbound = r.0 }, outbound_events (value s.inbound.state_feedback) r.1)

  unfoldable pub put_tx_data : D → ControlStream F D → ControlStream F D × List (Event D)
  put_tx_data d s = after_outbound s (set_data t crc d s.outbound)

  unfoldable pub feed_rx_data : D → ControlStream F D → ControlStream F D × List (Event D)
  feed_rx_data d s = after_inbound s (feed_data t crc d s.inbound)

  -- A message of less than eight bytes is read past its end: `none`.
  unfoldable pub load_rx_control_data :
      List ℕ → ControlStream F D → Option (ControlStream F D × List (Event D))
  load_rx_control_data payload s = read_word 0 payload >>= λ h_iv. read_word 4 payload >>= λ h_of.
      let (s1, events1) = after_inbound s (set_state_validate t crc h_iv s.inbound) in
      let (s2, events2) = after_outbound s1 (set_state_feedback t crc h_of s1.outbound) in
      some (s2, events1 ++ events2)

  unfoldable pub tick_stream : F → ControlStream F D → ControlStream F D × List (Event D)
  tick_stream delta s =
      let (s1, events1) = after_inbound s (tick_inbound t crc delta s.inbound) in
      let (s2, events2) = after_outbound s1 (tick_outbound t crc delta s1.outbound) in
      (s2, events1 ++ events2)
