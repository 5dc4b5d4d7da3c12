-- ===== src/Stream/Wiring.antt =====
-- Two streams on one bus, on lib/bus/include/robobus/network/cstream_can.hpp.
use robobus.Base.{ℕ, ◌≡◌, ◌≢◌, refl, Option, none, some, List, [], ◌∷◌, ==-refl, ==-ne, ◌>>=◌}
use robobus.Network.{Frame}
use robobus.Stream.{Timer}
use robobus.Stream.Control.{
  ControlStream, Event, tx_ctrl, tx_data, rx_data, rx_ok, tx_ok, feed_rx_data, load_rx_control_data,
}
use robobus.Stream.Can.{Config, sent_frames, receive_frame}

module _ {F : Type 0} (t : Timer F) (crc : List ℕ → ℕ) where
  -- The frames come in one after another.
  unfoldable pub receive_frames :
      Config → List Frame → ControlStream F (List ℕ) → Option (ControlStream F (List ℕ))
  receive_frames config [] s = some s
  receive_frames config (f ∷ rest) s =
      receive_frame t crc config f s >>= λ r. receive_frames config rest r.0

  -- What the events of one side mean for the other.
  unfoldable pub pass_on :
      List (Event (List ℕ)) → ControlStream F (List ℕ) → Option (ControlStream F (List ℕ))
  pass_on [] s = some s
  pass_on (tx_ctrl payload ∷ rest) s =
      load_rx_control_data t crc payload s >>= λ r. pass_on rest r.0
  pass_on (tx_data payload ∷ rest) s = pass_on rest (feed_rx_data t crc payload s).0
  pass_on (rx_data payload ∷ rest) s = pass_on rest s
  pass_on (rx_ok ∷ rest) s = pass_on rest s
  pass_on (tx_ok ∷ rest) s = pass_on rest s

  -- One side listens to the identifiers under which the other sends.
  pub record AreCrossed (here there : Config) : Type 0 where
    pub ctrl : there.rx_ctrl_msg_id ≡ here.tx_ctrl_msg_id
    pub datum : there.rx_data_msg_id ≡ here.tx_data_msg_id
    pub apart : here.tx_data_msg_id ≢ here.tx_ctrl_msg_id

  -- On the bus, each control message of one side is loaded by the other, each datum is fed to it, and
  -- its other events send nothing. The identifiers are crossed, and differ for control and data.
  pub receive_frames-sent :
      (here there : Config) (events : List (Event (List ℕ))) (s : ControlStream F (List ℕ))
      → AreCrossed here there
      → receive_frames there (sent_frames here events) s ≡ pass_on events s
  unfolding receive_frames sent_frames pass_on receive_frame
  receive_frames-sent here there [] s h = refl
  receive_frames-sent here there (tx_ctrl payload ∷ events) s h =
      rw (h.ctrl, ==-refl here.tx_ctrl_msg_id)
        (elim (load_rx_control_data t crc payload s)
          as (λ o.
            (o >>= λ r. receive_frames there (sent_frames here events) r.0)
            ≡ (o >>= λ r. pass_on events r.0)) [
              | none ↦ refl
              | some r ↦ receive_frames-sent here there events r.0 h
            ])
  receive_frames-sent here there (tx_data payload ∷ events) s h =
      rw (h.ctrl, ==-ne _ _ h.apart, h.datum, ==-refl here.tx_data_msg_id)
        (receive_frames-sent here there events (feed_rx_data t crc payload s).0 h)
  receive_frames-sent here there (rx_data payload ∷ events) s h =
      receive_frames-sent here there events s h
  receive_frames-sent here there (rx_ok ∷ events) s h = receive_frames-sent here there events s h
  receive_frames-sent here there (tx_ok ∷ events) s h = receive_frames-sent here there events s h
