-- ===== src/Enumerate/Bus.antt =====
-- Enumeration interfaces on the bus: `HandleRx` of lib/bus/include/robobus/network/interface/
-- enumerate_interface.hpp behind `HandleP2PMessage` of core.hpp.
use robobus.Base.{
  ℕ, ◌≡◌, ◌≢◌, refl, ap, ◌∙◌, Option, some, List, [], ◌==◌, if◌then◌else◌, ==-ne, ==-refl, true,
}
use robobus.Wire.{from_parts, Address, get_id}
use robobus.Wire.Parts.{IsByte, from_parts-HasParts}
use robobus.Device.{get_interface, get_self_id}
use robobus.Network.{
  Frame, Delivery, not_to_self, handled, unknown_interface, unknown_message, on_rx, send_to,
}
use robobus.Network.Routing.{HasByteAddresses, on_rx-send_to, reaches, get_self_id-IsByte}
use robobus.Enumerate.State.{Interface, Enumerator, Action}
use robobus.Enumerate.Server.{handle_rx_async}

-- A frame comes in at a device whose enumeration interface is `e`, in which no coroutine waits for a
-- message. The other interfaces of the device do not concern it.
unfoldable pub deliver : ℕ → Frame → Enumerator → Option (Enumerator × List Action)
deliver random f e = elim (on_rx f e.device) [
  | handled i from payload ↦
      if get_id f.id == e.tx.port then handle_rx_async random from payload e else some (e, [])
  | _ ↦ some (e, [])
]

-- The interface is in the table at its port, and the addresses are bytes.
pub record IsAttached (e : Enumerator) : Type 0 where
  pub self : Interface
  pub registered : get_interface e.tx.port e.device ≡ some self
  pub byte_addresses : HasByteAddresses e.device
  pub byte_port : IsByte e.tx.port

send-to_port :
    (s : Enumerator) (dest : Address) (payload : List ℕ)
    → robobus.Network.send s.device s.tx dest payload ≡ send_to s.device dest s.tx.port payload
unfolding robobus.Network.send send_to
send-to_port s dest payload = refl

send-id :
    (s : Enumerator) (dest : Address) (payload : List ℕ)
    → (robobus.Network.send s.device s.tx dest payload).id
      ≡ from_parts (get_self_id s.device) dest s.tx.port
unfolding robobus.Network.send
send-id s dest payload = refl

-- A message that reaches the interface on the other side is handled there.
pub deliver-send :
    (random : ℕ) (s e : Enumerator) (dest : Address) (payload : List ℕ)
    → IsAttached s
    → IsAttached e
    → s.tx.port ≡ e.tx.port
    → IsByte dest.id
    → (get_self_id s.device).id ≢ e.device.self.id
    → reaches dest e.device ≡ true
    → deliver random (robobus.Network.send s.device s.tx dest payload) e
      ≡ handle_rx_async random (get_self_id s.device) payload e
unfolding deliver
deliver-send random s e dest payload hs he port hd foreign reach =
    let parts =
      from_parts-HasParts (get_self_id s.device) dest s.tx.port
        (get_self_id-IsByte s.device hs.byte_addresses) hd hs.byte_port in
    let at : get_id (robobus.Network.send s.device s.tx dest payload).id ≡ e.tx.port =
      ap get_id (send-id s dest payload) ∙ parts.0.port ∙ port in
    let arrival =
      on_rx-send_to s.device e.device dest s.tx.port payload hs.byte_addresses hd hs.byte_port in
    rw
      (
        send-to_port,
        deliver,
        arrival,
        ==-ne _ _ foreign,
        reach,
        port,
        he.registered,
        at,
        ==-refl e.tx.port,
      )
      refl
