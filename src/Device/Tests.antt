-- ===== src/Device/Tests.antt =====
-- A device with one interface, and its table.
use native.Mathlib.Decide.{ℕ_discrete}
use mathlib.Core.List.{Nodup, Nodup-cons, Nodup-nil, not-mem-nil}
use robobus.Base.{ℕ, ◌≡◌, refl, true, some, List, [], ◌∷◌}
use robobus.Wire.{address, get_source, get_destination}
use robobus.Device.{
  Device, no_features, contains, new_device, initialized, id_waiting, add_interface, has_interface,
  get_interface, is_to_self,
}
use robobus.Base.Text.{codes, to_string}
use robobus.Device.Status.{LooksLike, status, monitor_turn, monitor_turn-changes}
use robobus.Device.Table.{ports, get_interface-add}

text-discrete : Discrete (List ℕ)
text-discrete = hlevel ℕ_discrete

abbrev one_port : Device ℕ
one_port = record new_device {
  self = address 5;
  advertise_tag = address 0x81;
  state = initialized;
  interfaces = (3, 30) ∷ [];
}

is_to_self_run : is_to_self 0x0101_8103 one_port ≡ true
unfolding is_to_self get_source get_destination
is_to_self_run = refl

one_port-Nodup : Nodup (ports one_port.interfaces)
one_port-Nodup = Nodup-cons.1 (not-mem-nil, Nodup-nil)

get_interface-add_example :
    ((add_interface 4 (some 40) one_port).1 ≡ true)
    × (get_interface 4 (add_interface 4 (some 40) one_port).0 ≡ some 40)
    × ((add_interface 4 (some 40) one_port).0.state ≡ initialized)
    × ((add_interface 4 (some 40) one_port).0.self ≡ address 5)
    × ((add_interface 4 (some 40) one_port).0.advertise_tag ≡ address 0x81)
    × ((add_interface 4 (some 40) one_port).0.features ≡ no_features)
unfolding has_interface
get_interface-add_example = get_interface-add 4 4 40 one_port

abbrev other_port : Device ℕ
other_port = record one_port { state = id_waiting; interfaces = [] }

monitor_turn-changes_example :
    (LooksLike one_port other_port
      → monitor_turn text-discrete other_port (status one_port) ≡ (status one_port, []))
    × (¬ LooksLike one_port other_port
        → monitor_turn text-discrete other_port (status one_port)
          ≡ (status other_port, status other_port ∷ []))
monitor_turn-changes_example = monitor_turn-changes text-discrete one_port other_port

status_run : status one_port ≡ codes "ID: 5  Tag: 129  State: 2  Features: "
unfolding status contains to_string
status_run = refl
