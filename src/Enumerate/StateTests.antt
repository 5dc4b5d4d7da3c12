-- ===== src/Enumerate/StateTests.antt =====
-- The handlers of two devices, on messages of bytes.
use robobus.Base.{◌≤◌, ◌≡◌, refl, arith, true, false, some, [], ◌∷◌}
use robobus.Wire.{address, root}
use robobus.Device.{
  container, add_feature, add_interface, get_interface, initialized, transition_to_initialized,
  transition_to_id_waiting,
}
use robobus.Enumerate.State.{Interface, Enumerator}
use robobus.Enumerate.Server.{handle_rx_async, await_enumerated}
use robobus.Enumerate.Sample.{own_interface, new_node}
use robobus.Enumerate.Frames.{SentBy, FitsCan, handle_rx_async-FitsCan}
use robobus.Enumerate.Bounds.{IsByteWide}
use robobus.Enumerate.Replies.{Keeps}
use robobus.Enumerate.Invariant.{handle_rx_async-IsByteWide}
use robobus.Enumerate.Advances.{rank}
use robobus.Enumerate.Steps.{
  receive, await_address, register, call_feature, Reach, here, after, Reach-Advances,
}

handle_rx_async-FitsCan_example : SentBy FitsCan (handle_rx_async 3 root (0x10 ∷ []) new_node)
handle_rx_async-FitsCan_example = handle_rx_async-FitsCan 3 root (0x10 ∷ []) new_node

new_node-IsByteWide : IsByteWide new_node
new_node-IsByteWide = omega arith

handle_rx_async-IsByteWide_example : Keeps (handle_rx_async 3 root (0x10 ∷ []) new_node)
handle_rx_async-IsByteWide_example =
    handle_rx_async-IsByteWide root (omega arith) (0x10 ∷ []) (omega arith) 3 new_node (omega arith)
      new_node-IsByteWide

-- The new node gets a second interface, waits for its address, is scanned, gets the address 2, and
-- then a feature.
abbrev motor : Interface
motor = record { id = 9; name = b'm' ∷ [] }

abbrev fuller_node : Enumerator
fuller_node = record new_node {
  device = record new_node.device { interfaces = (3, motor) ∷ new_node.device.interfaces };
}

abbrev waiting_node : Enumerator
waiting_node = record fuller_node { waiter_available = true }

abbrev offered_node : Enumerator
offered_node = record waiting_node {
  device = transition_to_id_waiting (address 0x83) waiting_node.device;
}

abbrev settled_node : Enumerator
settled_node = record offered_node {
  device = transition_to_initialized (address 2) offered_node.device;
  waiter_available = false;
}

abbrev featured_node : Enumerator
featured_node = record settled_node { device = add_feature container settled_node.device }

enumerated : Reach new_node featured_node
unfolding handle_rx_async await_enumerated transition_to_id_waiting add_interface
enumerated =
    let added : Reach new_node fuller_node =
      after here (register {e' = fuller_node} 3 (some motor) (omega arith) refl) in
    let waits : Reach new_node waiting_node =
      after added (await_address {e' = waiting_node} refl) in
    let scanned : Reach new_node offered_node = after waits (
      receive {e' = offered_node} 3 root (0x00 ∷ []) _ (omega arith) (omega arith) (omega arith)
        refl) in
    let assigned : Reach new_node settled_node = after scanned (
      receive {e' = settled_node} 3 root (0x02 ∷ 2 ∷ []) _ (omega arith) (omega arith) (omega arith)
        refl) in
    after assigned (call_feature container refl)

Reach-Advances_example :
    (rank new_node.device.state ≤ rank featured_node.device.state)
    × (get_interface 0 new_node.device ≡ some own_interface
        → get_interface 0 featured_node.device ≡ some own_interface)
    × (new_node.device.state ≡ initialized
        → (featured_node.device.state ≡ initialized)
          × (featured_node.device.self ≡ new_node.device.self)
          × (featured_node.device.advertise_tag ≡ new_node.device.advertise_tag))
    × IsByteWide featured_node
Reach-Advances_example =
    Reach-Advances new_node featured_node 0 own_interface new_node-IsByteWide enumerated
