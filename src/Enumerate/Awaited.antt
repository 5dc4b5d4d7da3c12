-- ===== src/Enumerate/Awaited.antt =====
-- `AwaitEnumerated` and the handshake, in lib/bus/include/robobus/network/interface/
-- enumerate_interface.hpp.
use robobus.Base.{ℕ, ◌<◌, ◌≡◌, ◌≢◌, refl, true, false, none, some, [], ◌∷◌}
use robobus.Device.{
  not_initialized, initialized, is_initialized, get_self_id, transition_to_initialized,
}
use robobus.Enumerate.State.{Enumerator, resume}
use robobus.Enumerate.Server.{await_enumerated}
use robobus.Enumerate.Bus.{IsAttached, deliver}
use robobus.Enumerate.Handshake.{give_frame, offered, settled, three_way_handshake}

-- A device with a coroutine that waits for its address.
abbrev pub with_waiter : Enumerator → Enumerator
with_waiter d = record d { waiter_available = true }

with_waiter-IsAttached : (d : Enumerator) → IsAttached d → IsAttached (with_waiter d)
with_waiter-IsAttached d h = record {
  self = h.self;
  registered = h.registered;
  byte_addresses = h.byte_addresses;
  byte_port = h.byte_port;
}

-- A coroutine that awaits `AwaitEnumerated` on a device without an address, as the first to do so, is
-- suspended; the last frame of the handshake resumes it with the address that the root gives out,
-- and with it only, and the device goes by this address then. To await `AwaitEnumerated` on the
-- device after that is undefined. The conditions are those of the handshake.
pub await_enumerated-address :
    (random : ℕ) (r d : Enumerator)
    → IsAttached r
    → IsAttached d
    → r.tx.port ≡ d.tx.port
    → r.device.state ≡ initialized
    → d.device.state ≡ not_initialized
    → d.waiter_available ≡ false
    → random < 256
    → r.device.self.id < 128
    → r.device.self.id ≢ d.device.self.id
    → let after = settled r.next_device_id (offered random (with_waiter d)) in
      (await_enumerated d ≡ some (with_waiter d))
      × (deliver random (give_frame random r) (offered random (with_waiter d))
          ≡ some (after, resume r.next_device_id ∷ []))
      × (get_self_id after.device ≡ r.next_device_id)
      × (await_enumerated after ≡ none)
unfolding await_enumerated get_self_id transition_to_initialized
await_enumerated-address random r d hr hd ports ready fresh alone byte low apart =
    let steps =
      three_way_handshake random r (with_waiter d) hr (with_waiter-IsAttached d hd) ports ready
        fresh byte low apart in
    let unnamed : is_initialized d.device ≡ false = rw fresh refl in
    (simp (unnamed, alone), steps.2, refl, refl)
