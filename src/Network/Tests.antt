-- ===== src/Network/Tests.antt =====
-- Two devices on one bus.
use robobus.Base.{ℕ, ◌≡◌, [], ◌∷◌, arith}
use robobus.Wire.{address, root}
use robobus.Device.{Device, new_device, initialized, id_waiting, get_self_id, get_interface}
use robobus.Network.{on_rx, send_to, handled}
use robobus.Network.Routing.{HasByteAddresses, on_rx-send_to}

abbrev root_device : Device ℕ
root_device = record new_device { self = root; state = initialized; interfaces = (0, 7) ∷ [] }

-- It waits for its address under the tag 0x81.
abbrev waiting : Device ℕ
waiting = record new_device { advertise_tag = address 0x81; state = id_waiting }

waiting-HasByteAddresses : HasByteAddresses waiting
waiting-HasByteAddresses = record { self_byte = omega arith; tag_byte = omega arith }

on_rx-send_to_example :
    on_rx (send_to waiting root 0 (1 ∷ [])) root_device ≡ handled 7 (address 0x81) (1 ∷ [])
unfolding get_self_id get_interface
on_rx-send_to_example =
    on_rx-send_to waiting root_device root 0 (1 ∷ []) waiting-HasByteAddresses (omega arith)
      (omega arith)
