-- ===== src/Reception/Tests.antt =====
-- Coroutines that are numbers, and a query, waiting through a list of node numbers.
use mathlib.Core.List.{Nodup-cons, Nodup-nil, not-mem-nil}
use robobus.Base.{ℕ, ◌<◌, ◌≤◌, ◌≡◌, refl, arith, some, none, List, [], ◌∷◌, ◌++◌, length, ◌⊎◌}
use robobus.Wire.{address, root}
use robobus.Enumerate.State.{Enumerator, DeviceSummary}
use robobus.Enumerate.Server.{own_summary, summaries}
use robobus.Enumerate.Coroutine.{Packet, Coroutine, exec}
use robobus.Enumerate.Client.{query_device}
use robobus.Enumerate.Description.{serve}
use robobus.Enumerate.Describe.{exec-query_device}
use robobus.Reception.{SyncRx, begin_receive, waiting, returned, default_packet, new_sync_rx}
use robobus.Enumerate.Sample.{root_node, far_node, root_node-IsAttached, far_node-AreInTouch}
use robobus.Enumerate.Remote.{Listens, over_bus}
use robobus.Reception.Sample.{node_list, nobody}
use robobus.Reception.Nodes.{take_first}
use robobus.Reception.Waiters.{Represents, new_sync_rx-Represents, begin_receive-Represents}
use robobus.Reception.Node.{Node, continued, handle_rx, acts, handle_rx-Represents}
use robobus.Reception.Drive.{advance, deliver_all, deliver_all-exec}
use robobus.Reception.Query.{serve-HasOpcodes}
use robobus.Reception.Remote.{query_device-over_bus}

abbrev empty_queue : SyncRx (List ℕ) ℕ ℕ
empty_queue = new_sync_rx node_list nobody

-- Coroutine 7 waits for the opcode 0x11.
abbrev one_waits : SyncRx (List ℕ) ℕ ℕ
one_waits = (begin_receive node_list 0x11 7 empty_queue).0

empty_queue-Represents : Represents node_list empty_queue []
empty_queue-Represents = new_sync_rx-Represents node_list nobody

abbrev one_waiter : List (ℕ × ℕ)
one_waiter = (0x11, 7) ∷ []

one_waits-Represents : Represents node_list one_waits one_waiter
one_waits-Represents =
    ((begin_receive-Represents node_list 0x11 7 empty_queue [] empty_queue-Represents).0
      (omega arith)).1

begin_receive-Represents_example :
    (length one_waiter < 4
      → ((begin_receive node_list 0x15 8 one_waits).1 ≡ waiting)
        × Represents node_list
            (begin_receive node_list 0x15 8 one_waits).0
            (one_waiter ++ (0x15, 8) ∷ []))
    × (4 ≤ length one_waiter
        → begin_receive node_list 0x15 8 one_waits ≡ (one_waits, returned default_packet))
begin_receive-Represents_example =
    begin_receive-Represents node_list 0x15 8 one_waits one_waiter one_waits-Represents

-- The root, with the coroutine that waits.
abbrev waiting_node : Node (List ℕ) ℕ ℕ
waiting_node = record { sync_rx = one_waits; enumerator = root_node }

handle_rx-Represents_example :
    ((take_first 0x11 one_waiter ≡ none)
      × (handle_rx node_list 3 root (0x11 ∷ 0 ∷ []) waiting_node
          ≡ acts node_list 3 root (0x11 ∷ 0 ∷ []) waiting_node))
    ⊎ ((h : ℕ) × (ws : List (ℕ × ℕ)) × (m : SyncRx (List ℕ) ℕ ℕ) × (take_first 0x11 one_waiter
          ≡ some (h, ws))
        × (handle_rx node_list 3 root (0x11 ∷ 0 ∷ []) waiting_node
            ≡ some (
              record waiting_node { sync_rx = m },
              continued h (record { from = root; payload = 0x11 ∷ 0 ∷ [] }),
            ))
        × Represents node_list m ws)
handle_rx-Represents_example =
    handle_rx-Represents node_list 3 root 0x11 (0 ∷ []) waiting_node one_waiter one_waits-Represents

abbrev no_query : SyncRx (List ℕ) ℕ (Packet → Coroutine DeviceSummary)
no_query = nobody

answered :
    (e' : Enumerator) × (exec (serve root) far_node [] (query_device (address 5))
      ≡ some (own_summary far_node, e'))
unfolding summaries
answered =
    exec-query_device root (address 5) far_node refl (Nodup-cons.1 (not-mem-nil, Nodup-nil))
      (omega arith) (omega arith) (omega arith) (omega arith) (omega arith, tt)

deliver_all-exec_example :
    (fuel : ℕ) × (deliver_all node_list (serve root) fuel (
        advance node_list
          (serve root)
          far_node
          []
          (query_device (address 5))
          (new_sync_rx node_list no_query))
      ≡ some (own_summary far_node, answered.0))
deliver_all-exec_example =
    deliver_all-exec node_list (serve root) (serve-HasOpcodes root) (query_device (address 5))
      far_node [] (new_sync_rx node_list no_query) (own_summary far_node, answered.0) tt
      (new_sync_rx-Represents node_list no_query) answered.1

far_node-Listens : Listens root_node (address 5) far_node
far_node-Listens = record { touch = far_node-AreInTouch; reached = refl }

query_device-over_bus_example :
    (e' : Enumerator) × (fuel : ℕ) × (deliver_all node_list (over_bus root_node) fuel (
        advance node_list
          (over_bus root_node)
          far_node
          []
          (query_device (address 5))
          (new_sync_rx node_list no_query))
      ≡ some (own_summary far_node, e'))
unfolding summaries
query_device-over_bus_example =
    query_device-over_bus node_list root_node far_node (address 5) no_query root_node-IsAttached
      (omega arith) far_node-Listens refl (Nodup-cons.1 (not-mem-nil, Nodup-nil)) (omega arith)
      (omega arith) (omega arith) (omega arith) (omega arith, tt)
