-- ===== src/Device.antt =====
-- lib/bus/include/robobus/network/device: the state of a device, its features and its table of
-- interfaces. `unordered_map` is an association list in the order in which it is walked; a new
-- entry goes to the front. An interface is a value of any type, and a null pointer is `none`.
pub mod Table
pub mod Addressing
pub mod Status
mod Tests
use robobus.Base.{
  ℕ, Bool, true, false, Option, none, some, List, [], ◌∷◌, ◌==◌, if◌then◌else◌, set, get_or,
  replicate,
}
use robobus.Wire.{Address, address, same_address, broadcast, get_source, get_destination}

-- device_state.hpp
pub data State : Type 0 where
  not_initialized id_waiting initialized : State

-- device_feature.hpp
pub data Feature : Type 0 where
  container device k_max : Feature

abbrev pub position : Feature → ℕ
position container = 0
position device = 1
position k_max = 2

-- `std::bitset<8>`, the lowest bit first.
pub record Features : Type 0 where
  pub bits : List Bool

abbrev pub no_features : Features
no_features = record { bits = replicate 8 false }

unfoldable pub add : Feature → Features → Features
add f s = record { bits = set s.bits (position f) true }

unfoldable pub remove : Feature → Features → Features
remove f s = record { bits = set s.bits (position f) false }

unfoldable pub contains : Feature → Features → Bool
contains f s = get_or s.bits (position f) false

-- `contains` and `at` of the map.
module _ {ℓ} {V : Type ℓ} where
  unfoldable pub find : ℕ → List (ℕ × V) → Option V
  find k [] = none
  find k ((j, v) ∷ m) = if j == k then some v else find k m

  unfoldable pub has : ℕ → List (ℕ × V) → Bool
  has k [] = false
  has k ((j, v) ∷ m) = if j == k then true else has k m

-- device.hpp
pub record Device (I : Type 0) : Type 0 where
  pub self : Address
  pub advertise_tag : Address
  pub state : State
  pub features : Features
  pub interfaces : List (ℕ × I)

module _ {I : Type 0} where
  abbrev pub new_device : Device I
  new_device = record {
    self = address 0;
    advertise_tag = address 0;
    state = not_initialized;
    features = no_features;
    interfaces = [];
  }

  unfoldable pub has_interface : ℕ → Device I → Bool
  unfolding has
  has_interface port d = has port d.interfaces

  unfoldable pub get_interface : ℕ → Device I → Option I
  unfolding has find
  get_interface port d = if has port d.interfaces then find port d.interfaces else none

  unfoldable pub add_interface : ℕ → Option I → Device I → Device I × Bool
  unfolding has
  add_interface port none d = (d, false)
  add_interface port (some interface) d =
      if has port d.interfaces
      then (d, false)
      else (record d { interfaces = (port, interface) ∷ d.interfaces }, true)

  unfoldable pub transition_to_initialized : Address → Device I → Device I
  transition_to_initialized self_id d = record d { self = self_id; state = initialized }

  unfoldable pub transition_to_id_waiting : Address → Device I → Device I
  transition_to_id_waiting tag d = record d { advertise_tag = tag; state = id_waiting }

  unfoldable pub add_feature : Feature → Device I → Device I
  add_feature f d = record d { features = add f d.features }

  abbrev pub is_not_initialized : Device I → Bool
  is_not_initialized d = elim d.state [ not_initialized ↦ true | _ ↦ false ]

  abbrev pub is_id_waiting : Device I → Bool
  is_id_waiting d = elim d.state [ id_waiting ↦ true | _ ↦ false ]

  abbrev pub is_initialized : Device I → Bool
  is_initialized d = elim d.state [ initialized ↦ true | _ ↦ false ]

  unfoldable pub get_self_id : Device I → Address
  get_self_id d = elim d.state [
    | not_initialized ↦ d.advertise_tag
    | id_waiting ↦ d.advertise_tag
    | initialized ↦ d.self
  ]

  unfoldable pub is_to_self : ℕ → Device I → Bool
  is_to_self raw d =
      if same_address (get_source raw) d.self
      then false
      else if same_address (get_destination raw) broadcast
      then true
      else if same_address (get_destination raw) d.self
      then true
      else if same_address (get_destination raw) d.advertise_tag
      then true
      else false
