-- ===== src/Network.antt =====
-- lib/bus/include/robobus/network/core.hpp and network_can.hpp, and the sending half of
-- interface/interface.hpp: frames go out under an identifier made of the device's address, and a
-- frame that comes in is routed to one interface. The CAN bus itself is outside: what is sent is a
-- frame, and what comes in is a frame.
pub mod Routing
pub mod Payload
mod Tests
use robobus.Base.{ℕ, Bool, Option, none, some, List, [], ◌∷◌, ◌==◌, if◌then◌else◌}
use robobus.Wire.{Address, raw_p2p, MessageKind, get_kind, get_source, get_id, from_parts}
use robobus.Device.{Feature, Device, add_interface, add_feature, get_self_id, is_to_self}

pub record Frame : Type 0 where
  pub id : ℕ
  pub payload : List ℕ

-- `InterfaceCANTx`, without the bus: the device that it sends for is an argument of `Send`.
pub record CanTx : Type 0 where
  pub port : ℕ

abbrev pub get_can_tx : ℕ → CanTx
get_can_tx port = record { port = port }

module _ {I : Type 0} where
  -- `InterfaceCANTx::Send(dest, remote_port, data)`; `RobobusOnCAN::Send` does the same.
  unfoldable pub send_to : Device I → Address → ℕ → List ℕ → Frame
  send_to d dest remote_port payload = record {
    id = from_parts (get_self_id d) dest remote_port;
    payload = payload;
  }

  -- `InterfaceCANTx::Send(dest, data)`, to the same port on the other side.
  unfoldable pub send : Device I → CanTx → Address → List ℕ → Frame
  send d tx dest payload = record {
    id = from_parts (get_self_id d) dest tx.port;
    payload = payload;
  }

-- What comes of a frame that arrives.
pub data Delivery (I : Type 0) : Type 0 where
  not_to_self : Delivery I
  handled : I → Address → List ℕ → Delivery I
  unknown_interface : ℕ → Delivery I
  unknown_message : ℕ → Delivery I

module _ {I : Type 0} where
  -- The loop of `HandleP2PMessage` over the table.
  unfoldable pub route : ℕ → Address → List ℕ → List (ℕ × I) → Delivery I
  route interface_id from payload [] = unknown_interface interface_id
  route interface_id from payload ((port, interface) ∷ rest) =
      if port == interface_id
      then handled interface from payload
      else route interface_id from payload rest

  unfoldable pub handle_p2p_message : ℕ → List ℕ → Device I → Delivery I
  unfolding route
  handle_p2p_message raw payload d =
      if is_to_self raw d
      then route (get_id raw) (get_source raw) payload d.interfaces
      else not_to_self

  -- The handler that the constructor of `RobobusOnCAN` registers.
  unfoldable pub on_rx : Frame → Device I → Delivery I
  unfolding handle_p2p_message
  on_rx f d = elim (get_kind f.id) [
    | raw_p2p ↦ handle_p2p_message f.id f.payload d
    | _ ↦ unknown_message f.id
  ]

  -- `NewInterface`: the interface is made with its sender and returned, whether or not its port
  -- was free.
  unfoldable pub new_interface : ℕ → (CanTx → I) → Device I → Device I × I
  new_interface port make d =
      let interface = make (get_can_tx port) in
      ((add_interface port (some interface) d).0, interface)
