-- ===== src/Enumerate/Answers.antt =====
-- Several enumeration interfaces on the bus, one of which asks the others for an interface: `HandleRx`
-- of lib/bus/include/robobus/network/interface/enumerate_interface.hpp.
use robobus.Base.{
  ℕ, ◌≡◌, ◌≢◌, refl, sym, ap, ◌∙◌, arith, true, Option, some, List, [], ◌∷◌, ◌++◌, ◌==◌, ◌>>=◌,
  Bool-cases, Option-cases, inl, inr,
}
use mathlib.Core.List.{append-nil}
use robobus.Device.{get_self_id}
use robobus.Network.{Frame}
use robobus.Network.Routing.{reaches, get_self_id-IsByte}
use robobus.Enumerate.State.{
  Interface, InterfaceRef, Enumerator, Action, transmit, device_found, resume,
}
use robobus.Enumerate.Server.{references}
use robobus.Enumerate.Bus.{IsAttached, deliver, deliver-send}
use robobus.Enumerate.References.{offering, found, found-found, handle-reference}

-- The frames among what a handler did.
unfoldable pub frames : List Action → List Frame
frames [] = []
frames (transmit f ∷ rest) = f ∷ frames rest
frames (device_found a ∷ rest) = frames rest
frames (resume a ∷ rest) = frames rest

-- Frames come in one after another; what the handlers do is left aside.
unfoldable pub deliver_frames : List Frame → Enumerator → Option Enumerator
deliver_frames [] e = some e
deliver_frames (f ∷ rest) e = deliver 0 f e >>= λ r. deliver_frames rest r.0

-- Each side hears the other.
pub record AreInTouch (client d : Enumerator) : Type 0 where
  pub attached : IsAttached d
  pub ports : client.tx.port ≡ d.tx.port
  pub asks : (get_self_id client.device).id ≢ d.device.self.id
  pub answers : (get_self_id d.device).id ≢ client.device.self.id

module _ (client : Enumerator) (intf_id : ℕ) where
  abbrev pub AllInTouch : List Enumerator → Type 0
  AllInTouch [] = Unit
  AllInTouch (d ∷ ds) = AreInTouch client d × AllInTouch ds

-- The devices get the question one after another, with what they send.
unfoldable pub ask_all : Frame → List Enumerator → Option (List Frame)
unfolding frames
ask_all question [] = some []
ask_all question (d ∷ ds) =
    deliver 0 question d >>= λ r. ask_all question ds >>= λ rest. some (frames r.1 ++ rest)

-- Every port of every device with an interface of the identifier.
unfoldable pub all_offers : ℕ → List Enumerator → List InterfaceRef
all_offers intf_id [] = []
all_offers intf_id (d ∷ ds) =
    offering (get_self_id d.device) intf_id d.device.interfaces ++ all_offers intf_id ds

pub deliver_frames-append :
    (fs gs : List Frame) (e : Enumerator)
    → deliver_frames (fs ++ gs) e ≡ (deliver_frames fs e >>= λ e'. deliver_frames gs e')
unfolding deliver_frames
deliver_frames-append [] gs e = refl
deliver_frames-append (f ∷ fs) gs e = elim (Option-cases (deliver 0 f e)) [
  | inl h ↦ rw h refl
  | inr (r, h) ↦ rw h (deliver_frames-append fs gs r.0)
]

pub found-IsAttached :
    (e : Enumerator) (more : List InterfaceRef) → IsAttached e → IsAttached (found e more)
found-IsAttached e more h = record {
  self = h.self;
  registered = h.registered;
  byte_addresses = h.byte_addresses;
  byte_port = h.byte_port;
}

pub reaches_self : (e : Enumerator) → reaches (get_self_id e.device) e.device ≡ true
unfolding get_self_id
reaches_self e = ground arith

-- The answers of one device reach the client as the ports of its table.
pub deliver_frames-references :
    (e d : Enumerator) (intf_id : ℕ) (m : List (ℕ × Interface))
    → IsAttached e
    → AreInTouch e d
    → deliver_frames (frames (references d (get_self_id e.device) intf_id m)) e
      ≡ some (found e (offering (get_self_id d.device) intf_id m))
unfolding deliver_frames frames references offering
deliver_frames-references e d intf_id [] he h = rw (append-nil e.find_interface_results) refl
deliver_frames-references e d intf_id ((port, intf) ∷ m) he h =
    elim (Bool-cases (intf.id == intf_id)) [
      | inl hit ↦
          let from = get_self_id d.device in
          let ref : List InterfaceRef = record { dev = from; port = port } ∷ [] in
          let arrives =
            deliver-send 0 d e (get_self_id e.device) (0x17 ∷ port ∷ []) h.attached he (sym h.ports)
              (get_self_id-IsByte e.device he.byte_addresses) h.answers (reaches_self e)
            ∙ handle-reference from port e in
          let rest =
            deliver_frames-references (found e ref) d intf_id m (found-IsAttached e ref he)
              (record {
                attached = h.attached;
                ports = h.ports;
                asks = h.asks;
                answers = h.answers;
              }) in
          rw (hit, arrives) (rest ∙ ap some (found-found e ref (offering from intf_id m)))
      | inr miss ↦ rw miss (deliver_frames-references e d intf_id m he h)
    ]

-- What a device finds does not matter for who hears whom.
AreInTouch-found :
    (e d : Enumerator) (r : List InterfaceRef)
    → AreInTouch e d
    → AreInTouch (record e { find_interface_results = r }) d
AreInTouch-found e d r h = record {
  attached = h.attached;
  ports = h.ports;
  asks = h.asks;
  answers = h.answers;
}

pub AllInTouch-found :
    (e : Enumerator) (intf_id : ℕ) (r : List InterfaceRef) (ds : List Enumerator)
    → AllInTouch e intf_id ds
    → AllInTouch (record e { find_interface_results = r }) intf_id ds
AllInTouch-found e intf_id r [] h = tt
AllInTouch-found e intf_id r (d ∷ ds) (first, rest) =
    (AreInTouch-found e d r first, AllInTouch-found e intf_id r ds rest)
