-- ===== src/Network/Routing.antt =====
-- From the sender's call to the receiver's interface, on network_can.hpp and core.hpp of
-- lib/bus/include/robobus/network.
use robobus.Base.{ℕ, ◌≡◌, refl, Bool, Option, none, some, List, [], ◌∷◌, if◌then◌else◌, arith, ◌||◌}
use robobus.Wire.{Address, same_address, broadcast}
use robobus.Wire.Parts.{IsByte, HasParts, from_parts-HasParts}
use robobus.Device.{Device, find, get_interface, get_self_id, is_to_self}
use robobus.Device.Table.{has-find}
use robobus.Network.{
  Frame, Delivery, not_to_self, handled, unknown_interface, route, on_rx, send_to,
}

module _ {I : Type 0} where
  -- What the receiver does with a message that it takes: the interface at the port, if there is one.
  abbrev pub at_port : ℕ → Address → List ℕ → Option I → Delivery I
  at_port port from payload none = unknown_interface port
  at_port port from payload (some i) = handled i from payload

  route-find :
      (port : ℕ) (from : Address) (payload : List ℕ) (m : List (ℕ × I))
      → route port from payload m ≡ at_port port from payload (find port m)
  unfolding route find
  route-find port from payload [] = refl
  route-find port from payload ((j, i) ∷ m) = ground (arith, route-find port from payload m)

  pub record HasByteAddresses (d : Device I) : Type 0 where
    pub self_byte : IsByte d.self.id
    pub tag_byte : IsByte d.advertise_tag.id

  pub get_self_id-IsByte : (d : Device I) → HasByteAddresses d → IsByte (get_self_id d).id
  unfolding get_self_id
  get_self_id-IsByte d h = ground arith

  -- Is `dest` the broadcast address, or the address or the tag of `d`?
  abbrev pub reaches : Address → Device I → Bool
  reaches dest d =
      same_address dest broadcast || same_address dest d.self || same_address dest d.advertise_tag

  -- What the receiver makes of a frame whose parts are known.
  abbrev pub routed : Address → Address → ℕ → List ℕ → Device I → Delivery I
  routed from dest port payload b =
      if same_address from b.self
      then not_to_self
      else if reaches dest b
      then at_port port from payload (get_interface port b)
      else not_to_self

  on_rx-HasParts :
      (f : Frame) (b : Device I) {from dest : Address} {port : ℕ}
      → HasParts f.id from dest port
      → on_rx f b ≡ routed from dest port f.payload b
  unfolding on_rx is_to_self get_interface
  on_rx-HasParts f b {from} {port = port} h =
      rw (h.kind, on_rx, h.source, h.destination, h.port)
        (ground (arith, route-find port from f.payload b.interfaces, has-find port b.interfaces))

  -- A frame that device `a` sends to address `dest` and port `port`, when it comes in at device
  -- `b`: it is dropped if the sender goes by the address of `b`, or if `dest` is not one that
  -- reaches `b`; otherwise it is handled by the interface of `b` at that port, with the address
  -- of `a` for its source and the same bytes, or reported as unknown if the port is free. The
  -- addresses of `a` are bytes, and so are the destination and the port.
  pub on_rx-send_to :
      (a b : Device I) (dest : Address) (port : ℕ) (payload : List ℕ)
      → HasByteAddresses a
      → IsByte dest.id
      → IsByte port
      → on_rx (send_to a dest port payload) b ≡ routed (get_self_id a) dest port payload b
  unfolding send_to
  on_rx-send_to a b dest port payload ha hd hp =
      on_rx-HasParts (send_to a dest port payload) b
        (from_parts-HasParts (get_self_id a) dest port (get_self_id-IsByte a ha) hd hp).0
