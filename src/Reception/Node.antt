-- ===== src/Reception/Node.antt =====
-- `HandleRx` of lib/bus/include/robobus/network/interface/enumerate_interface.hpp: the enumeration
-- interface with the list of those that wait in it.
use robobus.Base.{ℕ, ◌≡◌, refl, Option, none, some, List, ◌∷◌, ◌>>=◌, ◌⊎◌, inl, inr}
use robobus.Wire.{Address}
use robobus.Enumerate.State.{Enumerator, Action}
use robobus.Enumerate.Server.{handle_rx_async}
use robobus.Enumerate.Coroutine.{Packet}
use robobus.Reception.{LinkedList, SyncRx, resumed, handed_on, unavailable, handle_rx_mixin}
use robobus.Reception.Nodes.{take_first}
use robobus.Reception.Waiters.{Represents, handle_rx_mixin-Represents}

pub record Node (L N H : Type 0) : Type 0 where
  pub sync_rx : SyncRx L N H
  pub enumerator : Enumerator

-- What comes of a message: a coroutine goes on with it, or `HandleRxAsync` has acted, or nobody got
-- it.
pub data Handled (H : Type 0) : Type 0 where
  continued : H → Packet → Handled H
  acted : List Action → Handled H
  lost : Handled H

module _ {L N H : Type 0} (list : LinkedList L N) where
  unfoldable pub handle_rx : ℕ → Address → List ℕ → Node L N H → Option (Node L N H × Handled H)
  handle_rx random from payload n = handle_rx_mixin list from payload n.sync_rx >>= λ r. elim r.1 [
    | resumed h p ↦ some (record n { sync_rx = r.0 }, continued h p)
    | handed_on ↦ handle_rx_async random from payload n.enumerator >>= λ s.
        some (record { sync_rx = r.0; enumerator = s.0 }, acted s.1)
    | unavailable ↦ some (record n { sync_rx = r.0 }, lost)
  ]

  -- What `HandleRxAsync` comes to in a node.
  abbrev pub acts : ℕ → Address → List ℕ → Node L N H → Option (Node L N H × Handled H)
  acts random from payload n = handle_rx_async random from payload n.enumerator >>= λ s.
      some (record n { enumerator = s.0 }, acted s.1)

  -- A message that a coroutine waits for goes to the one that has waited longest, and the
  -- enumeration interface does not act on it; any other message is acted on as if nobody waited.
  pub handle_rx-Represents :
      (random : ℕ) (from : Address) (op : ℕ) (rest : List ℕ) (n : Node L N H) (ws : List (ℕ × H))
      → Represents list n.sync_rx ws
      → ((take_first op ws ≡ none)
          × (handle_rx random from (op ∷ rest) n ≡ acts random from (op ∷ rest) n))
        ⊎ ((h : H) × (ws' : List (ℕ × H)) × (m' : SyncRx L N H) × (take_first op ws ≡ some (h, ws'))
            × (handle_rx random from (op ∷ rest) n
                ≡ some (
                  record n { sync_rx = m' },
                  continued h (record { from = from; payload = op ∷ rest }),
                ))
            × Represents list m' ws')
  unfolding handle_rx
  handle_rx-Represents random from op rest n ws r =
      elim (handle_rx_mixin-Represents list from op rest n.sync_rx ws r) [
        | inl (nobody, e) ↦ inl (nobody, rw e refl)
        | inr (h, ws', m', found, e, r') ↦ inr (h, ws', m', found, rw e refl, r')
      ]
