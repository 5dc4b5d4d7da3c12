-- ===== src/Enumerate/Remote.antt =====
-- The queries of lib/bus/include/robobus/network/interface/enumerate_interface.hpp over the bus: each
-- question and each answer is a frame that is routed as `HandleP2PMessage` of core.hpp does.
use robobus.Base.{
  ℕ, ◌≡◌, refl, sym, ap, subst, ◌∙◌, true, Option, none, some, List, [], ◌∷◌, ◌++◌, ◌==◌,
  if◌then◌else◌, Option-cases, inl, inr, ==-refl, ==-ne,
}
use robobus.Wire.{Address, get_source, get_id}
use robobus.Wire.Parts.{IsByte, from_parts-HasParts}
use robobus.Device.{get_self_id}
use robobus.Network.{Frame, Delivery, handled, route, on_rx, send_to}
use robobus.Network.Routing.{reaches, get_self_id-IsByte, on_rx-send_to}
use robobus.Enumerate.State.{Interface, Enumerator, Action, transmit, device_found, resume}
use robobus.Enumerate.Encoder.{decode}
use robobus.Enumerate.Server.{
  handle_rx_async, handshake, respond, send_string, send_interface, send_device,
}
use robobus.Enumerate.Coroutine.{Packet, Coroutine, ret, send, await, fault, next_message, exec}
use robobus.Enumerate.Questions.{Question, device, interface, string, bytes_of, AsksOnly}
use robobus.Enumerate.Bus.{IsAttached, deliver, deliver-send}
use robobus.Enumerate.Frames.{AllSent}
use robobus.Enumerate.Answers.{frames, AreInTouch, reaches_self}
use robobus.Enumerate.Description.{packets, delivered, serve}

-- The frames that the enumeration interface of `client` gets, as messages.
unfoldable pub heard : Enumerator → List Frame → List Packet
heard client [] = []
heard client (f ∷ fs) =
    let others = heard client fs in
    elim (on_rx f client.device) [
      | handled i from payload ↦
          if get_id f.id == client.tx.port
          then record { from = from; payload = payload } ∷ others
          else others
      | _ ↦ others
    ]

unfoldable pub heard_back :
    Enumerator → Enumerator → Option (Enumerator × List Action) → Enumerator × List Packet
unfolding heard
heard_back client e none = (e, [])
heard_back client e (some (e', actions)) = (e', heard client (frames actions))

-- The other side on the bus, for what `client` sends.
unfoldable pub over_bus : Enumerator → Enumerator → Address → List ℕ → Enumerator × List Packet
unfolding heard_back
over_bus client e dest payload =
    heard_back client e (deliver 0 (robobus.Network.send client.device client.tx dest payload) e)

-- A frame that the client hears as its source and its bytes say.
abbrev Arrives : Enumerator → Frame → Type 0
Arrives client f =
    (i : Interface) × (on_rx f client.device ≡ handled i (get_source f.id) f.payload)
    × (get_id f.id ≡ client.tx.port)

heard-packets :
    (client : Enumerator) (actions : List Action)
    → AllSent (Arrives client) actions
    → heard client (frames actions) ≡ packets actions
unfolding heard frames packets
heard-packets client [] h = refl
heard-packets client (transmit f ∷ rest) ((i, arrival, port), h) =
    rw (arrival, heard, port, ==-refl client.tx.port, heard-packets client rest h) refl
heard-packets client (device_found a ∷ rest) h = heard-packets client rest h
heard-packets client (resume a ∷ rest) h = heard-packets client rest h

-- What a device does with a question: its table stays, and it answers the one that asked.
abbrev Answered : Enumerator → Address → Enumerator × List Action → Type 0
Answered e from (e', actions) =
    (e'.device ≡ e.device)
    × (e'.tx ≡ e.tx)
    × AllSent (λ f. (payload : List ℕ) × (f ≡ robobus.Network.send e.device e.tx from payload))
        actions

send_string-Answered :
    (from : Address) (id index : ℕ) (e : Enumerator)
    → Answered e from (e, send_string from id index e)
unfolding send_string
send_string-Answered from id index e = elim (Option-cases (decode id e.collected_strings)) [
  | inl missing ↦ rw (missing, send_string) (refl, refl, tt)
  | inr (str, here) ↦ rw (here, send_string) (refl, refl, ((_, refl), tt))
]

send_interface-Answered :
    (from : Address) (index : ℕ) (e : Enumerator) → Answered e from (send_interface from index e)
unfolding send_interface
send_interface-Answered from index e = elim (Option-cases (decode index e.collected_interfaces)) [
  | inl missing ↦ rw (missing, send_interface) (refl, refl, tt)
  | inr (intf, here) ↦ rw (here, send_interface) (refl, refl, ((_, refl), tt))
]

handle-question :
    (from : Address) (q : Question) (e : Enumerator)
    → (r : Enumerator × List Action) × (handle_rx_async 0 from (bytes_of q) e ≡ some r)
      × Answered e from r
unfolding handle_rx_async handshake respond send_device
handle-question from device e = (_, refl, (refl, refl, ((_, refl), tt)))
handle-question from (interface index) e =
    (send_interface from index e, refl, send_interface-Answered from index e)
handle-question from (string id index) e =
    ((e, send_string from id index e), refl, send_string-Answered from id index e)

-- The other side has the address that is asked.
pub record Listens (client : Enumerator) (dev : Address) (e : Enumerator) : Type 0 where
  pub touch : AreInTouch client e
  pub reached : reaches dev e.device ≡ true

module _ (client : Enumerator) (attached : IsAttached client) where
  reply-Arrives :
      (e : Enumerator) (payload : List ℕ)
      → AreInTouch client e
      → Arrives client (robobus.Network.send e.device e.tx (get_self_id client.device) payload)
  unfolding robobus.Network.send send_to
  reply-Arrives e payload h =
      let dest = get_self_id client.device in
      let parts =
        (from_parts-HasParts (get_self_id e.device) dest e.tx.port
          (get_self_id-IsByte e.device h.attached.byte_addresses)
          (get_self_id-IsByte client.device attached.byte_addresses) h.attached.byte_port).0 in
      let arrival =
        on_rx-send_to e.device client.device dest e.tx.port payload h.attached.byte_addresses
          (get_self_id-IsByte client.device attached.byte_addresses) h.attached.byte_port in
      (
        attached.self,
        arrival
            ∙ rw
                (
                  parts.source,
                  ==-ne _ _ h.answers,
                  reaches_self client,
                  sym h.ports,
                  attached.registered,
                )
                refl,
        parts.port ∙ sym h.ports,
      )

  -- A device that answers stays in touch.
  AreInTouch-Answered :
      (e e' : Enumerator)
      → e'.device ≡ e.device
      → e'.tx ≡ e.tx
      → AreInTouch client e
      → AreInTouch client e'
  AreInTouch-Answered e e' p q h = record {
    attached = record {
      self = h.attached.self;
      registered = rw (p, q) h.attached.registered;
      byte_addresses = rw p h.attached.byte_addresses;
      byte_port = rw q h.attached.byte_port;
    };
    ports = rw q h.ports;
    asks = rw p h.asks;
    answers = rw p h.answers;
  }

  sent-Arrives :
      (e : Enumerator) (actions : List Action)
      → AreInTouch client e
      → AllSent
          (λ f.
            (payload : List ℕ) × (f
              ≡ robobus.Network.send e.device e.tx (get_self_id client.device) payload))
          actions
      → AllSent (Arrives client) actions
  sent-Arrives e [] h s = tt
  sent-Arrives e (transmit f ∷ rest) h ((payload, is), s) =
      (subst (Arrives client) (sym is) (reply-Arrives e payload h), sent-Arrives e rest h s)
  sent-Arrives e (device_found a ∷ rest) h s = sent-Arrives e rest h s
  sent-Arrives e (resume a ∷ rest) h s = sent-Arrives e rest h s

  module _ (dev : Address) (byte : IsByte dev.id) where
    over_bus-serve :
        (q : Question) (e : Enumerator)
        → Listens client dev e
        → (over_bus client e dev (bytes_of q)
            ≡ serve (get_self_id client.device) e dev (bytes_of q))
          × Listens client dev (serve (get_self_id client.device) e dev (bytes_of q)).0
    unfolding over_bus heard_back serve delivered
    over_bus-serve q e h =
        let from = get_self_id client.device in
        let ((e', actions), here, (p, t, sent)) = handle-question from q e in
        let arrives =
          deliver-send 0 client e dev (bytes_of q) attached h.touch.attached h.touch.ports byte
            h.touch.asks h.reached
          ∙ here in
        let all = heard-packets client actions (sent-Arrives e actions h.touch sent) in
        rw (arrives, here)
          (
            ap (λ ps. (e', ps)) all,
            record { touch = AreInTouch-Answered e e' p t h.touch; reached = rw p h.reached },
          )

    -- The bus makes no difference to it.
    pub exec-over_bus :
        {A : Type 0} (c : Coroutine A) (e : Enumerator) (inbox : List Packet)
        → AsksOnly dev c
        → Listens client dev e
        → exec (over_bus client) e inbox c ≡ exec (serve (get_self_id client.device)) e inbox c
    unfolding exec
    exec-over_bus (ret a) e inbox c h = refl
    exec-over_bus (send dest payload k) e inbox (here, (q, is), c) h =
        let (same, h') = over_bus-serve q e h in
        let r = serve (get_self_id client.device) e dev (bytes_of q) in
        rw (here, is, same) (exec-over_bus k r.0 (inbox ++ r.1) c h')
    exec-over_bus (await op k) e inbox c h = elim (Option-cases (next_message op inbox)) [
      | inl stuck ↦ rw (stuck, exec) refl
      | inr ((p, rest), found) ↦ rw (found, exec) (exec-over_bus (k p) e rest (c p) h)
    ]
    exec-over_bus fault e inbox c h = refl
