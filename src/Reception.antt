-- ===== src/Reception.antt =====
-- `SyncRxMixin` of lib/bus/include/robobus/network/interface/interface.hpp: coroutines that wait for a
-- message of one opcode, in a list with room for four. The list of the library robotics and its
-- nodes are parameters; a coroutine handle is a value of any type, a null one is `none`, and to
-- resume one is left to the caller. A read past the end of a message, or of an empty optional, gives
-- `none` here.
pub mod Nodes
pub mod Waiters
pub mod Node
pub mod Drive
pub mod Query
pub mod Remote
pub mod Sample
mod Tests
use mathlib.Core.Logic.{ite}
use robobus.Base.{
  ℕ, ◌≤◌, ◌≡◌, ◌≢◌, ◌↔◌, Bool, true, false, Option, none, some, List, [], ◌∷◌, ◌++◌, length,
  get_elem?, ◌==◌, if◌then◌else◌, ◌>>=◌, NotIn,
}
use robobus.Wire.{Address, address}
use robobus.Enumerate.Coroutine.{Packet}

-- `Packet{}`
abbrev pub default_packet : Packet
default_packet = record { from = address 0; payload = 0 ∷ [] }

pub record MessageAwaiter (H : Type 0) : Type 0 where
  pub packet : Option Packet
  pub handle : Option H

module _ {H : Type 0} where
  unfoldable pub invalidate : MessageAwaiter H → MessageAwaiter H
  invalidate a = record { packet = none; handle = none }

  -- The awaiter with the packet, and the coroutine that is resumed; with none an error is logged.
  unfoldable pub notify_message : Packet → MessageAwaiter H → MessageAwaiter H × Option H
  notify_message p a = (record a { packet = some p }, a.handle)

  unfoldable pub await_ready : MessageAwaiter H → Bool
  await_ready a = elim a.packet [ none ↦ false | some p ↦ true ]

  unfoldable pub await_suspend : H → MessageAwaiter H → MessageAwaiter H
  await_suspend h a = record { packet = none; handle = some h }

module _ {N : Type 0} (same : Discrete N) where
  abbrev pub without : N → List N → List N
  without n [] = []
  without n (x ∷ xs) = ite (same x n) (without n xs) (x ∷ without n xs)

  abbrev pub assign_at {ℓ} : {V : Type ℓ} → N → V → (N → V) → N → V
  assign_at n v f x = ite (same x n) v (f x)

-- A linked list with four nodes, by the nodes that it holds in order: a node that is not in use is
-- put at its end, and a node is taken out, if it is there.
pub record LinkedList (L N : Type 0) : Type 0 where
  pub same : Discrete N
  pub items : L → List N
  pub clear : L → L
  pub new_back : L → Option (N × L)
  pub take_out : N → L → L
  pub clear-items : (l : L) → items (clear l) ≡ []
  pub new_back-none : (l : L) → (new_back l ≡ none) ↔ (4 ≤ length (items l))
  pub new_back-items :
      (l : L) (n : N) (l' : L)
      → new_back l ≡ some (n, l')
      → (items l' ≡ items l ++ n ∷ []) × NotIn n (items l)
  pub take_out-items : (n : N) (l : L) → items (take_out n l) ≡ without same n (items l)

-- The list, and what its nodes hold.
pub record SyncRx (L N H : Type 0) : Type 0 where
  pub wait_queue : L
  pub opcode : N → ℕ
  pub awaiter : N → MessageAwaiter H

-- What `HandleRxMixin` comes to: a coroutine goes on with a packet, `HandleRxAsync` gets the message,
-- or a node had no coroutine.
pub data Outcome (H : Type 0) : Type 0 where
  resumed : H → Packet → Outcome H
  handed_on : Outcome H
  unavailable : Outcome H

-- What `ReceiveAwait` comes to at first.
pub data Begun : Type 0 where
  waiting : Begun
  returned : Packet → Begun

-- The loop of `HandleRxMixin` up to the node that it takes.
unfoldable pub find_waiter : {N : Type 0} → List ℕ → (N → ℕ) → List N → Option (Option N)
find_waiter payload opcode [] = some none
find_waiter payload opcode (n ∷ rest) = get_elem? payload 0 >>= λ op.
    let others = find_waiter payload opcode rest in if opcode n == op then some (some n) else others

module _ {L N H : Type 0} (list : LinkedList L N) where
  unfoldable pub new_sync_rx : SyncRx L N H → SyncRx L N H
  new_sync_rx m = record m { wait_queue = list.clear m.wait_queue }

  -- `ReceiveAwait` up to its suspension.
  unfoldable pub begin_receive : ℕ → H → SyncRx L N H → SyncRx L N H × Begun
  unfolding invalidate await_ready await_suspend
  begin_receive op h m = elim (list.new_back m.wait_queue) [
    | none ↦ (m, returned default_packet)
    | some (n, l) ↦ (
      record {
        wait_queue = l;
        opcode = assign_at list.same n op m.opcode;
        awaiter = assign_at list.same n (await_suspend h (invalidate (m.awaiter n))) m.awaiter;
      },
      waiting,
    )
  ]

  -- `ReceiveAwait` from there on, with what it returns.
  unfoldable pub end_receive : N → SyncRx L N H → Option (SyncRx L N H × Packet)
  end_receive n m =
      (m.awaiter n).packet >>= λ p. some (record m { wait_queue = list.take_out n m.wait_queue }, p)

  -- `HandleRxMixin` from `Remove` on; the coroutine that is resumed runs the end of `ReceiveAwait`.
  unfoldable pub notify : N → Packet → SyncRx L N H → Option (SyncRx L N H × Outcome H)
  notify n p m =
      let (a, handle) = notify_message p (m.awaiter n) in
      let m' = record m {
        wait_queue = list.take_out n m.wait_queue;
        awaiter = assign_at list.same n a m.awaiter;
      } in
      elim handle [
        | none ↦ some (m', unavailable)
        | some h ↦ end_receive n m' >>= λ r. some (r.0, resumed h r.1)
      ]

  unfoldable pub handle_rx_mixin :
      Address → List ℕ → SyncRx L N H → Option (SyncRx L N H × Outcome H)
  unfolding find_waiter notify
  handle_rx_mixin from payload m =
      find_waiter payload m.opcode (list.items m.wait_queue) >>= λ found. elim found [
        | none ↦ some (m, handed_on)
        | some n ↦ notify n (record { from = from; payload = payload }) m
      ]
