-- ===== src/Enumerate/Sample.antt =====
-- Two devices with an enumeration interface each, for the tests: the root, and one with no address.
use robobus.Base.{refl, arith, [], ◌∷◌}
use robobus.Wire.{root, address}
use robobus.Device.{new_device, initialized, get_interface, get_self_id}
use robobus.Network.{get_can_tx}
use robobus.Enumerate.State.{Interface, Enumerator, new_enumerator, set_creator, set_name}
use robobus.Enumerate.Bus.{IsAttached}
use robobus.Enumerate.Answers.{AreInTouch}

abbrev pub own_interface : Interface
own_interface = record { id = 0; name = b'E' ∷ b'n' ∷ [] }

abbrev pub root_node : Enumerator
root_node =
    new_enumerator
      (record new_device { self = root; state = initialized; interfaces = (0, own_interface) ∷ [] })
      (get_can_tx 0)

abbrev pub new_node : Enumerator
new_node = set_name (b'l' ∷ b'o' ∷ b'n' ∷ b'g' ∷ b'e' ∷ b'r' ∷ []) (
    set_creator (b'm' ∷ b'e' ∷ [])
      (new_enumerator (record new_device { interfaces = (0, own_interface) ∷ [] }) (get_can_tx 0)))

-- A device that has got its address.
abbrev pub far_node : Enumerator
far_node = set_name (b'a' ∷ b'r' ∷ b'm' ∷ []) (
    set_creator (b'm' ∷ b'e' ∷ []) (
      new_enumerator
        (record new_device {
          self = address 5;
          state = initialized;
          interfaces = (0, own_interface) ∷ [];
        })
        (get_can_tx 0)))

pub root_node-IsAttached : IsAttached root_node
unfolding get_interface
root_node-IsAttached = record {
  self = own_interface;
  registered = refl;
  byte_addresses = record { self_byte = omega arith; tag_byte = omega arith };
  byte_port = omega arith;
}

pub far_node-AreInTouch : AreInTouch root_node far_node
unfolding get_interface get_self_id
far_node-AreInTouch = record {
  attached = record {
    self = own_interface;
    registered = refl;
    byte_addresses = record { self_byte = omega arith; tag_byte = omega arith };
    byte_port = omega arith;
  };
  ports = refl;
  asks = omega arith;
  answers = omega arith;
}
