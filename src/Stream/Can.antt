-- ===== src/Stream/Can.antt =====
-- `ControlStreamOnCAN` of lib/bus/include/robobus/network/cstream_can.hpp: the events of a stream as
-- frames, and the frames that come in.
use robobus.Base.{ℕ, Option, some, List, [], ◌∷◌, ◌==◌, if◌then◌else◌}
use robobus.Network.{Frame}
use robobus.Stream.{Timer}
use robobus.Stream.Control.{
  ControlStream, Event, tx_ctrl, tx_data, rx_data, rx_ok, tx_ok, feed_rx_data, load_rx_control_data,
}

pub record Config : Type 0 where
  pub tx_ctrl_msg_id : ℕ
  pub rx_ctrl_msg_id : ℕ
  pub tx_data_msg_id : ℕ
  pub rx_data_msg_id : ℕ

-- The two handlers that the constructor connects.
unfoldable pub sent_frames : Config → List (Event (List ℕ)) → List Frame
sent_frames config [] = []
sent_frames config (tx_ctrl payload ∷ rest) =
    record { id = config.tx_ctrl_msg_id; payload = payload } ∷ sent_frames config rest
sent_frames config (tx_data payload ∷ rest) =
    record { id = config.tx_data_msg_id; payload = payload } ∷ sent_frames config rest
sent_frames config (rx_data payload ∷ rest) = sent_frames config rest
sent_frames config (rx_ok ∷ rest) = sent_frames config rest
sent_frames config (tx_ok ∷ rest) = sent_frames config rest

module _ {F : Type 0} (t : Timer F) (crc : List ℕ → ℕ) where
  -- The handler of `OnRx`.
  unfoldable pub receive_frame :
      Config
      → Frame
      → ControlStream F (List ℕ)
      → Option (ControlStream F (List ℕ) × List (Event (List ℕ)))
  receive_frame config f s =
      if f.id == config.rx_ctrl_msg_id
      then load_rx_control_data t crc f.payload s
      else if f.id == config.rx_data_msg_id
      then some (feed_rx_data t crc f.payload s)
      else some (s, [])
