-- ===== src/Enumerate/State.antt =====
-- The state of `EnumerateInterface` of lib/bus/include/robobus/network/interface/
-- enumerate_interface.hpp, with device_meta.hpp, device_summary.hpp, interface_summary.hpp and
-- device_id_manager.hpp, and what its handlers do to the outside.
use native.Mathlib.Decide.{ℕ_discrete}
use robobus.Base.{ℕ, ◌+◌, ◌%◌, Bool, false, List, [], Bool, List}
use robobus.Wire.{Address, address}
use robobus.Device.{Device}
use robobus.Network.{Frame, CanTx}

-- A name is the list of its bytes.
abbrev pub Name : Type 0
Name = List ℕ

pub Name-discrete : Discrete Name
Name-discrete = hlevel ℕ_discrete

-- What the device's table holds for this interface: `GetID` and `GetName`.
pub record Interface : Type 0 where
  pub id : ℕ
  pub name : Name

pub record InterfaceSummary : Type 0 where
  pub port : ℕ
  pub id : ℕ
  pub name : Name

-- `operator==` compares the three fields.
pub InterfaceSummary-discrete : Discrete InterfaceSummary
InterfaceSummary-discrete = hlevel ℕ_discrete

pub record DeviceMeta : Type 0 where
  pub creator : Name
  pub name : Name

pub record DeviceSummary : Type 0 where
  pub meta : DeviceMeta
  pub interfaces : List InterfaceSummary

pub record InterfaceRef : Type 0 where
  pub dev : Address
  pub port : ℕ

-- `DeviceIDManager::Impl`: the next address to give out, and the one after it, which wraps at 256.
unfoldable pub get_available_device_id : Address → Address × Address
get_available_device_id next = (next, address ((next.id + 1) % 256))

pub record Enumerator : Type 0 where
  pub device : Device Interface
  pub tx : CanTx
  pub next_device_id : Address
  pub collected_strings : List Name
  pub collected_interfaces : List InterfaceSummary
  pub creator : Name
  pub name : Name
  -- `on_enumerate_finished_` has a coroutine that waits, and knows its loop.
  pub waiter_available : Bool
  pub find_interface_results : List InterfaceRef

abbrev pub new_enumerator : Device Interface → CanTx → Enumerator
new_enumerator device tx = record {
  device = device;
  tx = tx;
  next_device_id = address 2;
  collected_strings = [];
  collected_interfaces = [];
  creator = [];
  name = [];
  waiter_available = false;
  find_interface_results = [];
}

-- `SetCreator` and `SetName`
abbrev pub set_creator : Name → Enumerator → Enumerator
set_creator creator e = record e { creator = creator }

abbrev pub set_name : Name → Enumerator → Enumerator
set_name name e = record e { name = name }

-- What a handler does to the outside, in order: a frame goes to the bus, the upper layer hears of
-- a device, and the coroutine that waits for an address is scheduled with it.
pub data Action : Type 0 where
  transmit : Frame → Action
  device_found : Address → Action
  resume : Address → Action
