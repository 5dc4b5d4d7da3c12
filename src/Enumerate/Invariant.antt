-- ===== src/Enumerate/Invariant.antt =====
-- The handlers of lib/bus/include/robobus/network/interface/enumerate_interface.hpp on a state and
-- messages made of bytes.
use robobus.Base.{ℕ, arith, List, [], ◌∷◌, get_elem?, bit_or, All-get_elem?}
use robobus.Base.Bits.{bit_or_top}
use robobus.Wire.{Address, address, get}
use robobus.Wire.Parts.{IsByte}
use robobus.Device.{
  is_not_initialized, is_id_waiting, is_initialized, transition_to_id_waiting,
  transition_to_initialized,
}
use robobus.Enumerate.{Opcode, opcode_of}
use robobus.Enumerate.State.{get_available_device_id, Enumerator}
use robobus.Enumerate.Server.{own_summary, handshake, respond, handle_rx_async}
use robobus.Enumerate.Frames.{AllSent-append}
use robobus.Enumerate.Bounds.{Bytes, IsByteWide, IsCanFrame, reply-IsCanFrame, summaries-IsSummary}
use robobus.Enumerate.Replies.{
  Keeps, Keeps-some, Keeps->>=, Keeps-if, references-IsCanFrame, send_string-IsCanFrame,
  send_interface-Keeps, send_device-Keeps,
}

module _ (from : Address) (hf : IsByte from.id) (payload : List ℕ) (hp : Bytes payload) where
  handshake-Keeps :
      (o : Opcode) (random : ℕ) (e : Enumerator)
      → IsByte random
      → IsByteWide e
      → Keeps (handshake o random from payload e)
  unfolding handshake transition_to_id_waiting transition_to_initialized get_available_device_id
  handshake-Keeps Opcode.scan_unenumerated random e hr w =
      let e' = record e {
        device = transition_to_id_waiting (address (bit_or random 0x80)) e.device;
      } in
      let w' : IsByteWide e' = ground (arith, bit_or_top random hr) in
      Keeps-if (is_not_initialized e.device) _ _
        (
          w',
          (reply-IsCanFrame e' from (1 ∷ []) w' hf (omega arith) (omega arith) (omega arith), tt),
        )
        (w, tt)
  handshake-Keeps Opcode.advertise random e hr w =
      let (id, next) = get_available_device_id e.next_device_id in
      let e' = record e { next_device_id = next } in
      let w' : IsByteWide e' = ground arith in
      let next_byte = w.next_byte in
      Keeps-if (is_initialized e.device) _ _
        (
          w',
          (
            reply-IsCanFrame e' from (2 ∷ get id ∷ []) w' hf (omega arith) (omega arith)
                (omega arith),
            tt,
          ),
        )
        (w, tt)
  handshake-Keeps Opcode.assign_id random e hr w =
      Keeps-if (is_id_waiting e.device) _ _
        (Keeps->>= (get_elem? payload 1) _ (λ id at.
          let byte = All-get_elem? IsByte payload 1 hp at in
          Keeps-if e.waiter_available _ _ (ground arith, tt) (ground arith, tt)))
        (w, tt)
  handshake-Keeps command random e hr w = (w, tt)

  respond-Keeps : (o : Opcode) (e : Enumerator) → IsByteWide e → Keeps (respond o from payload e)
  unfolding respond
  respond-Keeps Opcode.query_device e w =
      send_device-Keeps from hf (own_summary e) e
        (summaries-IsSummary e.device.interfaces w.entries) w.creator_bytes w.name_bytes w
  respond-Keeps Opcode.query_interface e w =
      Keeps->>= (get_elem? payload 1) _
        (λ index at. send_interface-Keeps from hf index e (All-get_elem? IsByte payload 1 hp at) w)
  respond-Keeps Opcode.query_string e w = Keeps->>= (get_elem? payload 1) _ (λ id at.
      Keeps->>= (get_elem? payload 2) _ (λ index there. (
        w,
        send_string-IsCanFrame from hf id index e (All-get_elem? IsByte payload 1 hp at)
            (All-get_elem? IsByte payload 2 hp there) w,
      )))
  respond-Keeps Opcode.interface_reference e w =
      Keeps->>= (get_elem? payload 1) _ (λ port _. (ground arith, tt))
  respond-Keeps Opcode.find_interface e w =
      Keeps->>= (get_elem? payload 1) _
        (λ intf_id _. (w, references-IsCanFrame from hf e intf_id e.device.interfaces w w.entries))
  respond-Keeps command e w = (w, tt)

  -- A handler that gets a message of bytes from a byte-wide address, in a state made of bytes,
  -- leaves such a state, and all that it sends are frames that the bus can carry: identifiers
  -- below 2 ^ 29, and one to eight bytes, each below 256.
  pub handle_rx_async-IsByteWide :
      (random : ℕ) (e : Enumerator)
      → IsByte random
      → IsByteWide e
      → Keeps (handle_rx_async random from payload e)
  unfolding handle_rx_async
  handle_rx_async-IsByteWide random e hr w = Keeps->>= (get_elem? payload 0) _ (λ op _.
      Keeps->>= (handshake (opcode_of op) random from payload e) _ (λ r first.
        let (w1, sent1) = Keeps-some _ r (handshake-Keeps (opcode_of op) random e hr w) first in
        Keeps->>= (respond (opcode_of op) from payload r.0) _ (λ s second.
          let (w2, sent2) = Keeps-some _ s (respond-Keeps (opcode_of op) r.0 w1) second in
          (w2, AllSent-append IsCanFrame r.1 s.1 sent1 sent2))))
