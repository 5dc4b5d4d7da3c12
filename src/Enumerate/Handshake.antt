-- ===== src/Enumerate/Handshake.antt =====
-- The three-way handshake by which a device gets its address, over the frames of the bus: `HandleRx`
-- behind `HandleP2PMessage`, in lib/bus/include/robobus/network/core.hpp and interface/
-- enumerate_interface.hpp.
use robobus.Base.{
  ℕ, ◌+◌, ◌%◌, ◌<◌, ◌≡◌, ◌≢◌, refl, sym, ap, ◌∙◌, arith, some, [], ◌∷◌, if◌then◌else◌, bit_or,
  Bool-cases, inl, inr, false,
}
use robobus.Base.Bits.{bit_or_top}
use robobus.Wire.{Address, address, broadcast}
use robobus.Device.{
  not_initialized, id_waiting, initialized, get_interface, get_self_id, transition_to_id_waiting,
  transition_to_initialized,
}
use robobus.Network.{
  Frame, Delivery, not_to_self, handled, unknown_interface, unknown_message, on_rx, send_to,
}
use robobus.Enumerate.State.{Enumerator, transmit, device_found, resume, get_available_device_id}
use robobus.Enumerate.Server.{reply, handshake, handle_rx_async}
use robobus.Enumerate.Bus.{IsAttached, deliver, deliver-send}

-- The device after it has offered itself, and the root after it has given out an address.
abbrev pub offered : ℕ → Enumerator → Enumerator
offered random d = record d {
  device = transition_to_id_waiting (address (bit_or random 0x80)) d.device;
}

abbrev pub assigned : Enumerator → Enumerator
assigned r = record r { next_device_id = (get_available_device_id r.next_device_id).1 }

abbrev pub settled : Address → Enumerator → Enumerator
settled id d = record d { device = transition_to_initialized id d.device; waiter_available = false }

handle-scan :
    (random : ℕ) (from : Address) (d : Enumerator)
    → d.device.state ≡ not_initialized
    → handle_rx_async random from (0x00 ∷ []) d
      ≡ some (offered random d, reply (offered random d) from (0x01 ∷ []) ∷ [])
unfolding handle_rx_async handshake
handle-scan random from d h = rw h refl

handle-advertise :
    (random : ℕ) (from : Address) (r : Enumerator)
    → r.device.state ≡ initialized
    → handle_rx_async random from (0x01 ∷ []) r
      ≡ some (
        assigned r,
        reply (assigned r) from (0x02 ∷ r.next_device_id.id ∷ [])
            ∷ device_found r.next_device_id
            ∷ [],
      )
unfolding handle_rx_async handshake get_available_device_id
handle-advertise random from r h = rw h refl

handle-assign :
    (random : ℕ) (from : Address) (id : ℕ) (d : Enumerator)
    → d.device.state ≡ id_waiting
    → handle_rx_async random from (0x02 ∷ id ∷ []) d
      ≡ some (settled (address id) d, if d.waiter_available then resume (address id) ∷ [] else [])
unfolding handle_rx_async handshake
handle-assign random from id d h = elim (Bool-cases d.waiter_available) [
  | inl w ↦ rw (h, w) refl
  | inr w ↦ rw (h, w) refl
]

-- The frames of the handshake, in order.
abbrev pub scan_frame : Enumerator → Frame
scan_frame r = robobus.Network.send r.device r.tx broadcast (0x00 ∷ [])

abbrev pub offer_frame : ℕ → Enumerator → Enumerator → Frame
offer_frame random r d =
    robobus.Network.send (offered random d).device d.tx r.device.self (0x01 ∷ [])

abbrev pub give_frame : ℕ → Enumerator → Frame
give_frame random r =
    robobus.Network.send r.device r.tx (address (bit_or random 0x80))
      (0x02 ∷ r.next_device_id.id ∷ [])

module _ (random : ℕ) (r d : Enumerator) (hr : IsAttached r) (hd : IsAttached d)
    (ports : r.tx.port ≡ d.tx.port) (root_ready : r.device.state ≡ initialized)
    (device_new : d.device.state ≡ not_initialized) (byte : random < 256)
    (low : r.device.self.id < 128) (apart : r.device.self.id ≢ d.device.self.id) where
  self-root : get_self_id r.device ≡ r.device.self
  unfolding get_self_id
  self-root = rw root_ready refl

  self-offered : get_self_id (offered random d).device ≡ address (bit_or random 0x80)
  unfolding get_self_id transition_to_id_waiting
  self-offered = refl

  tag : bit_or random 0x80 ≡ 128 + random % 128
  tag = bit_or_top random byte

  offered-IsAttached : IsAttached (offered random d)
  unfolding get_interface transition_to_id_waiting
  offered-IsAttached = record {
    self = hd.self;
    registered = hd.registered;
    byte_addresses = record {
      self_byte = hd.byte_addresses.self_byte;
      tag_byte = omega (arith, tag);
    };
    byte_port = hd.byte_port;
  }

  -- The three messages, each as it comes in at the other side.
  scan_step :
      deliver random (scan_frame r) d
      ≡ some (offered random d, transmit (offer_frame random r d) ∷ [])
  scan_step =
      let foreign : (get_self_id r.device).id ≢ d.device.self.id = rw self-root apart in
      deliver-send random r d broadcast (0x00 ∷ []) hr hd ports (omega arith) foreign refl
      ∙ rw self-root (handle-scan random r.device.self d device_new)

  offer_step :
      deliver random (offer_frame random r d) r
      ≡ some (assigned r, transmit (give_frame random r) ∷ device_found r.next_device_id ∷ [])
  offer_step =
      let foreign : (get_self_id (offered random d).device).id ≢ r.device.self.id =
        rw self-offered (omega (arith, tag)) in
      deliver-send random (offered random d) r r.device.self (0x01 ∷ []) offered-IsAttached hr
        (sym ports) hr.byte_addresses.self_byte foreign (ground arith)
      ∙ rw self-offered (handle-advertise random (address (bit_or random 0x80)) r root_ready)

  give_step :
      deliver random (give_frame random r) (offered random d)
      ≡ some (
        settled r.next_device_id (offered random d),
        if d.waiter_available then resume r.next_device_id ∷ [] else [],
      )
  unfolding transition_to_id_waiting
  give_step =
      let foreign : (get_self_id r.device).id ≢ d.device.self.id = rw self-root apart in
      deliver-send random r (offered random d) (address (bit_or random 0x80))
        (0x02 ∷ r.next_device_id.id ∷ []) hr offered-IsAttached ports (omega (arith, tag)) foreign
        (ground arith)
      ∙ rw self-root
          (handle-assign random r.device.self r.next_device_id.id (offered random d) refl)

  -- The three-way handshake, frame by frame. The broadcast scan of an initialized root `r` makes a
  -- device `d` without an address wait under the tag `random | 0x80` and offer itself; that frame
  -- makes the root send its next address to the tag, report it to the upper layer and step on to
  -- the one after it, modulo 256; and that frame makes the device initialized under exactly this
  -- address, and resumes the coroutine that waits for it, if there is one. The tag is
  -- `128 + random % 128`. Both interfaces are registered at one port, addresses, port and the
  -- random number are bytes, the root's address is below 128, and not the one that the device
  -- starts with.
  pub three_way_handshake :
      (deliver random (scan_frame r) d
        ≡ some (offered random d, transmit (offer_frame random r d) ∷ []))
      × (deliver random (offer_frame random r d) r
          ≡ some (assigned r, transmit (give_frame random r) ∷ device_found r.next_device_id ∷ []))
      × (deliver random (give_frame random r) (offered random d)
          ≡ some (
            settled r.next_device_id (offered random d),
            if d.waiter_available then resume r.next_device_id ∷ [] else [],
          ))
      × (get_self_id (offered random d).device ≡ address (128 + random % 128))
      × (get_self_id (settled r.next_device_id (offered random d)).device ≡ r.next_device_id)
      × ((assigned r).next_device_id ≡ address ((r.next_device_id.id + 1) % 256))
  unfolding get_self_id transition_to_initialized get_available_device_id
  three_way_handshake =
      (scan_step, offer_step, give_step, self-offered ∙ ap address tag, refl, refl)
