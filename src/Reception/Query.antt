-- ===== src/Reception/Query.antt =====
-- `Query` of lib/bus/include/robobus/network/interface/enumerate_interface.hpp, waiting through the
-- `SyncRxMixin` of interface.hpp for the answers of the other side's handlers.
use mathlib.Core.List.{Nodup}
use robobus.Base.{ℕ, ◌+◌, ◌≤◌, ◌≡◌, ap, arith, none, some, Option, List, [], ◌∷◌, length}
use robobus.Wire.{Address}
use robobus.Device.Table.{ports}
use robobus.Enumerate.State.{Enumerator, DeviceSummary, Action, transmit, device_found, resume}
use robobus.Enumerate.Server.{own_summary, summaries, handle_rx_async}
use robobus.Enumerate.Coroutine.{Packet, Coroutine}
use robobus.Enumerate.Client.{query_device}
use robobus.Enumerate.Description.{packets, delivered, serve}
use robobus.Enumerate.Query.{IsShort, AllShort}
use robobus.Enumerate.Describe.{exec-query_device}
use robobus.Enumerate.Frames.{AllSent, SentBy, FitsCan, handle_rx_async-FitsCan}
use robobus.Reception.{LinkedList, SyncRx, new_sync_rx}
use robobus.Reception.Waiters.{new_sync_rx-Represents}
use robobus.Reception.Drive.{HasOpcodes, advance, deliver_all, deliver_all-exec}

packets-HasOpcodes :
    (actions : List Action) → AllSent FitsCan actions → HasOpcodes (packets actions)
unfolding packets
packets-HasOpcodes [] h = tt
packets-HasOpcodes (transmit f ∷ rest) (fits, h) = (
  λ e. let size = fits.has_opcode in omega (arith, ap (λ (b : List ℕ). length b) e),
  packets-HasOpcodes rest h,
)
packets-HasOpcodes (device_found a ∷ rest) h = packets-HasOpcodes rest h
packets-HasOpcodes (resume a ∷ rest) h = packets-HasOpcodes rest h

delivered-HasOpcodes :
    (e : Enumerator) (r : Option (Enumerator × List Action))
    → SentBy FitsCan r
    → HasOpcodes (delivered e r).1
unfolding delivered
delivered-HasOpcodes e none h = tt
delivered-HasOpcodes e (some (e', actions)) h = packets-HasOpcodes actions h

pub serve-HasOpcodes :
    (client : Address) (e : Enumerator) (dev : Address) (question : List ℕ)
    → HasOpcodes (serve client e dev question).1
unfolding serve
serve-HasOpcodes client e dev question =
    delivered-HasOpcodes e (handle_rx_async 0 client question e)
      (handle_rx_async-FitsCan 0 client question e)

module _ {L N : Type 0} (list : LinkedList L N) (client dev : Address) (e : Enumerator) where
  -- A device that waits for each answer in `ReceiveAwait`, with nobody else waiting, and gets the
  -- answers through `HandleRxMixin`, reads the other side's own description. The other side has
  -- told of no interfaces before, and has at most 255 on distinct ports; no name is longer than
  -- 1020 bytes, and the strings that it has sent before and those of this answer are 256 at most.
  pub deliver_all-query_device :
      (m : SyncRx L N (Packet → Coroutine DeviceSummary))
      → e.collected_interfaces ≡ []
      → Nodup (ports e.device.interfaces)
      → length e.device.interfaces ≤ 255
      → length e.collected_strings + 2 + length e.device.interfaces ≤ 256
      → IsShort e.creator
      → IsShort e.name
      → AllShort (summaries e.device.interfaces)
      → (e' : Enumerator) × (fuel : ℕ) × (deliver_all list
            (serve client)
            fuel
            (advance list (serve client) e [] (query_device dev) (new_sync_rx list m))
          ≡ some (own_summary e, e'))
  deliver_all-query_device m fresh distinct few room creator_short name_short short =
      let (e', answered) =
        exec-query_device client dev e fresh distinct few room creator_short name_short short in
      let (fuel, returns) =
        deliver_all-exec list (serve client) (serve-HasOpcodes client) (query_device dev) e []
          (new_sync_rx list m) (own_summary e, e') tt (new_sync_rx-Represents list m) answered in
      (e', fuel, returns)
