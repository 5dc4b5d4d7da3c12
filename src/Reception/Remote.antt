-- ===== src/Reception/Remote.antt =====
-- `Query` of lib/bus/include/robobus/network/interface/enumerate_interface.hpp from one device to
-- another: the coroutine waits through `SyncRxMixin` of interface.hpp, and questions and answers are
-- frames on the bus.
use mathlib.Core.List.{Nodup}
use robobus.Base.{
  ℕ, ◌+◌, ◌≤◌, ◌≡◌, ◌≢◌, refl, ap, ◌∙◌, sym, arith, none, some, Option, List, [], ◌∷◌, length, ◌==◌,
  Bool-cases, inl, inr,
}
use robobus.Wire.{Address, get_id}
use robobus.Wire.Parts.{IsByte}
use robobus.Device.{get_self_id}
use robobus.Device.Table.{ports}
use robobus.Network.{
  Frame, Delivery, not_to_self, handled, unknown_interface, unknown_message, on_rx,
}
use robobus.Network.Payload.{Brings, on_rx-Brings}
use robobus.Enumerate.State.{
  Interface, Enumerator, DeviceSummary, Action, transmit, device_found, resume,
}
use robobus.Enumerate.Server.{own_summary, summaries}
use robobus.Enumerate.Coroutine.{Packet, Coroutine}
use robobus.Enumerate.Client.{query_device}
use robobus.Enumerate.Query.{IsShort, AllShort}
use robobus.Enumerate.Describe.{exec-query_device}
use robobus.Enumerate.Bus.{IsAttached, deliver}
use robobus.Enumerate.Answers.{frames}
use robobus.Enumerate.Frames.{AllSent, SentBy, FitsCan, handle_rx_async-FitsCan}
use robobus.Enumerate.Questions.{query_device-AsksOnly}
use robobus.Enumerate.Remote.{heard, heard_back, over_bus, Listens, exec-over_bus}
use robobus.Reception.{LinkedList, SyncRx, new_sync_rx}
use robobus.Reception.Waiters.{new_sync_rx-Represents}
use robobus.Reception.Drive.{HasOpcodes, advance, deliver_all, deliver_all-exec}

heard-frame :
    (client : Enumerator) (f : Frame) (fs : List Frame) (d : Delivery Interface)
    → FitsCan f
    → HasOpcodes (heard client fs)
    → on_rx f client.device ≡ d
    → Brings f.payload d
    → HasOpcodes (heard client (f ∷ fs))
unfolding heard
heard-frame client f fs (handled i from p) fits h e same =
    let ne : p ≢ [] = λ none_.
      let size = fits.has_opcode in
      omega (arith, ap (λ (b : List ℕ). length b) (sym same ∙ none_)) in
    elim (Bool-cases (get_id f.id == client.tx.port)) [
      | inl hit ↦ rw (e, heard, hit) (ne, h)
      | inr miss ↦ rw (e, heard, miss) h
    ]
heard-frame client f fs other fits h e same = rw (e, heard) h

heard-HasOpcodes :
    (client : Enumerator) (actions : List Action)
    → AllSent FitsCan actions
    → HasOpcodes (heard client (frames actions))
unfolding frames heard
heard-HasOpcodes client [] h = tt
heard-HasOpcodes client (transmit f ∷ rest) (fits, h) =
    heard-frame client f (frames rest) (on_rx f client.device) fits (heard-HasOpcodes client rest h)
      refl (on_rx-Brings f client.device)
heard-HasOpcodes client (device_found a ∷ rest) h = heard-HasOpcodes client rest h
heard-HasOpcodes client (resume a ∷ rest) h = heard-HasOpcodes client rest h

deliver-FitsCan :
    (random : ℕ) (f : Frame) (e : Enumerator) (d : Delivery Interface)
    → on_rx f e.device ≡ d
    → SentBy FitsCan (deliver random f e)
unfolding deliver
deliver-FitsCan random f e (handled i from p) h = elim (Bool-cases (get_id f.id == e.tx.port)) [
  | inl hit ↦ rw (h, deliver, hit) (handle_rx_async-FitsCan random from p e)
  | inr miss ↦ rw (h, deliver, miss) tt
]
deliver-FitsCan random f e other h = rw (h, deliver) tt

heard_back-HasOpcodes :
    (client e : Enumerator) (r : Option (Enumerator × List Action))
    → SentBy FitsCan r
    → HasOpcodes (heard_back client e r).1
unfolding heard_back
heard_back-HasOpcodes client e none h = tt
heard_back-HasOpcodes client e (some (e', actions)) h = heard-HasOpcodes client actions h

pub over_bus-HasOpcodes :
    (client e : Enumerator) (dest : Address) (payload : List ℕ)
    → HasOpcodes (over_bus client e dest payload).1
unfolding over_bus
over_bus-HasOpcodes client e dest payload =
    let f = robobus.Network.send client.device client.tx dest payload in
    heard_back-HasOpcodes client e (deliver 0 f e) (deliver-FitsCan 0 f e (on_rx f e.device) refl)

module _ {L N : Type 0} (list : LinkedList L N) (client e : Enumerator) (dev : Address) where
  -- `Query` from one device to another on the bus returns the other one's own description:
  -- creator, name, and every interface in its table with port, identifier and name. Each question
  -- goes out as a frame that is routed to the other side's handler, each frame that it answers is
  -- routed to the interface that asked, goes through `HandleRxMixin` and wakes up the coroutine
  -- that waits for it in `ReceiveAwait`. Both enumeration interfaces are registered at one port,
  -- with byte-wide addresses that differ, and the other side goes by the address that is asked;
  -- nobody else waits for a message. The other side has told of no interfaces before, and has at
  -- most 255 on distinct ports; no name is longer than 1020 bytes, and the strings that it has sent
  -- before and those of this answer are 256 at most.
  pub query_device-over_bus :
      (m : SyncRx L N (Packet → Coroutine DeviceSummary))
      → IsAttached client
      → IsByte dev.id
      → Listens client dev e
      → e.collected_interfaces ≡ []
      → Nodup (ports e.device.interfaces)
      → length e.device.interfaces ≤ 255
      → length e.collected_strings + 2 + length e.device.interfaces ≤ 256
      → IsShort e.creator
      → IsShort e.name
      → AllShort (summaries e.device.interfaces)
      → (e' : Enumerator) × (fuel : ℕ) × (deliver_all list
            (over_bus client)
            fuel
            (advance list (over_bus client) e [] (query_device dev) (new_sync_rx list m))
          ≡ some (own_summary e, e'))
  query_device-over_bus m attached byte listens fresh distinct few room creator_short name_short
        short =
      let (e', answered) =
        exec-query_device (get_self_id client.device) dev e fresh distinct few room creator_short
          name_short short in
      let same =
        exec-over_bus client attached dev byte (query_device dev) e [] (query_device-AsksOnly dev)
          listens in
      let (fuel, returns) =
        deliver_all-exec list (over_bus client) (over_bus-HasOpcodes client) (query_device dev) e []
          (new_sync_rx list m) (own_summary e, e') tt (new_sync_rx-Represents list m)
          (same ∙ answered) in
      (e', fuel, returns)
