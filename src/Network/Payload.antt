-- ===== src/Network/Payload.antt =====
-- What the routing of lib/bus/include/robobus/network/core.hpp hands to an interface.
use robobus.Base.{ℕ, ◌≡◌, refl, ◌==◌, List, [], ◌∷◌, Bool-cases, inl, inr}
use robobus.Wire.{Address, MessageKind, raw_p2p, get_kind, get_source, get_id}
use robobus.Device.{Device, is_to_self}
use robobus.Network.{Frame, Delivery, handled, route, handle_p2p_message, on_rx}

module _ {I : Type 0} where
  -- The interface gets the bytes of the frame.
  abbrev pub Brings : List ℕ → Delivery I → Type 0
  Brings payload (handled i from p) = p ≡ payload
  Brings payload other = Unit

  route-Brings :
      (id : ℕ) (from : Address) (payload : List ℕ) (m : List (ℕ × I))
      → Brings payload (route id from payload m)
  unfolding route
  route-Brings id from payload [] = tt
  route-Brings id from payload ((port, i) ∷ m) = elim (Bool-cases (port == id)) [
    | inl hit ↦ rw hit refl
    | inr miss ↦ rw miss (route-Brings id from payload m)
  ]

  handle_p2p_message-Brings :
      (raw : ℕ) (payload : List ℕ) (d : Device I)
      → Brings payload (handle_p2p_message raw payload d)
  unfolding handle_p2p_message
  handle_p2p_message-Brings raw payload d = elim (Bool-cases (is_to_self raw d)) [
    | inl hit ↦ rw hit (route-Brings (get_id raw) (get_source raw) payload d.interfaces)
    | inr miss ↦ rw miss tt
  ]

  on_rx_kind :
      (f : Frame) (d : Device I) (kind : MessageKind)
      → get_kind f.id ≡ kind
      → Brings f.payload (on_rx f d)
  unfolding on_rx
  on_rx_kind f d raw_p2p e = rw (e, on_rx) (handle_p2p_message-Brings f.id f.payload d)
  on_rx_kind f d other e = rw (e, on_rx) tt

  pub on_rx-Brings : (f : Frame) (d : Device I) → Brings f.payload (on_rx f d)
  on_rx-Brings f d = on_rx_kind f d (get_kind f.id) refl
