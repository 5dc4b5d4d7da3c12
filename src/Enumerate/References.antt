-- ===== src/Enumerate/References.antt =====
-- `FindInterface` against the answers of the devices, in lib/bus/include/robobus/network/interface/
-- enumerate_interface.hpp.
use mathlib.Core.List.{append_assoc, append-nil}
use robobus.Base.{
  ℕ, ◌≡◌, refl, ap, ◌∙◌, Option, some, List, [], ◌∷◌, ◌++◌, ◌==◌, if◌then◌else◌, Bool-cases,
  Option-cases, inl, inr, ◌>>=◌,
}
use robobus.Wire.{Address}
use robobus.Enumerate.State.{Interface, InterfaceRef, Enumerator}
use robobus.Enumerate.Server.{
  references, respond, handshake, handle_rx_async, begin_find_interface, end_find_interface,
}
use robobus.Enumerate.Coroutine.{Packet}
use robobus.Enumerate.Description.{packets, own_address}

-- The messages of one sender come in one after another; what the handler does is left aside.
unfoldable pub receive_all : List Packet → Enumerator → Option Enumerator
receive_all [] e = some e
receive_all (p ∷ rest) e = handle_rx_async 0 p.from p.payload e >>= λ r. receive_all rest r.0

-- The ports of a table whose interface has the identifier, from device `dev`.
unfoldable pub offering : Address → ℕ → List (ℕ × Interface) → List InterfaceRef
offering dev intf_id [] = []
offering dev intf_id ((port, intf) ∷ rest) =
    let others = offering dev intf_id rest in
    if intf.id == intf_id then record { dev = dev; port = port } ∷ others else others

-- What the asking side has found so far, and some more.
abbrev pub found : Enumerator → List InterfaceRef → Enumerator
found e more = record e { find_interface_results = e.find_interface_results ++ more }

pub handle-reference :
    (from : Address) (port : ℕ) (e : Enumerator)
    → handle_rx_async 0 from (0x17 ∷ port ∷ []) e
      ≡ some (found e (record { dev = from; port = port } ∷ []), [])
unfolding handle_rx_async handshake respond
handle-reference from port e = refl

receive_all-append :
    (ps qs : List Packet) (e : Enumerator)
    → receive_all (ps ++ qs) e ≡ (receive_all ps e >>= λ e'. receive_all qs e')
unfolding receive_all
receive_all-append [] qs e = refl
receive_all-append (p ∷ ps) qs e = elim (Option-cases (handle_rx_async 0 p.from p.payload e)) [
  | inl h ↦ rw h refl
  | inr (r, h) ↦ rw h (receive_all-append ps qs r.0)
]

pub found-found :
    (e : Enumerator) (xs ys : List InterfaceRef) → found (found e xs) ys ≡ found e (xs ++ ys)
found-found e xs ys = rw (append_assoc e.find_interface_results xs ys) refl

-- The messages that answer for a table are collected as the ports of that table.
receive_all-references :
    (client : Address) (d e : Enumerator) (intf_id : ℕ) (m : List (ℕ × Interface))
    → receive_all (packets (references d client intf_id m)) e
      ≡ some (found e (offering (own_address client client d) intf_id m))
unfolding receive_all references packets offering robobus.Network.send
receive_all-references client d e intf_id [] = rw (append-nil e.find_interface_results) refl
receive_all-references client d e intf_id ((port, intf) ∷ m) =
    elim (Bool-cases (intf.id == intf_id)) [
      | inl hit ↦
          let from = own_address client client d in
          let ref : List InterfaceRef = record { dev = from; port = port } ∷ [] in
          rw (hit, handle-reference from port e)
            (receive_all-references client d (found e ref) intf_id m
              ∙ ap some (found-found e ref (offering from intf_id m)))
      | inr miss ↦ rw miss (receive_all-references client d e intf_id m)
    ]

module _ (client : Address) (intf_id : ℕ) where
  -- What the devices answer to the broadcast question, one device after another.
  unfoldable pub answers : List Enumerator → List Packet
  answers [] = []
  answers (d ∷ ds) = packets (references d client intf_id d.device.interfaces) ++ answers ds

  -- Every port of every device, in that order, that has an interface with the identifier.
  unfoldable pub all_offering : List Enumerator → List InterfaceRef
  all_offering [] = []
  all_offering (d ∷ ds) =
      offering (own_address client client d) intf_id d.device.interfaces ++ all_offering ds

  receive_all-answers :
      (ds : List Enumerator) (e : Enumerator)
      → receive_all (answers ds) e ≡ some (found e (all_offering ds))
  unfolding answers all_offering
  receive_all-answers [] e = rw (append-nil e.find_interface_results) (unfold receive_all in refl)
  receive_all-answers (d ∷ ds) e =
      let here = offering (own_address client client d) intf_id d.device.interfaces in
      receive_all-append (packets (references d client intf_id d.device.interfaces)) (answers ds) e
      ∙ rw (receive_all-references client d e intf_id d.device.interfaces)
          (receive_all-answers ds (found e here) ∙ ap some (found-found e here (all_offering ds)))

  asked_references :
      (d : Enumerator)
      → handle_rx_async 0 client (0x16 ∷ intf_id ∷ []) d
        ≡ some (d, references d client intf_id d.device.interfaces)
  unfolding handle_rx_async handshake respond
  asked_references d = refl

  -- `FindInterface` returns one reference for every port, of every device that answers, at which
  -- there is an interface of the identifier asked for, and none else, whatever an earlier call left
  -- behind; and it leaves no results behind. The devices answer one after another, each as its
  -- handler does, without a change to its own state.
  pub find_interface-answers :
      (ds : List Enumerator) (e : Enumerator)
      → ((d : Enumerator)
          → (handle_rx_async 0 client (0x16 ∷ intf_id ∷ []) d
              ≡ some (d, references d client intf_id d.device.interfaces)))
        × (e' : Enumerator) × (receive_all (answers ds) (begin_find_interface intf_id e).0
            ≡ some e')
        × ((end_find_interface e').1 ≡ all_offering ds)
        × ((end_find_interface e').0.find_interface_results ≡ [])
  unfolding begin_find_interface end_find_interface
  find_interface-answers ds e = (
    asked_references,
    found (begin_find_interface intf_id e).0 (all_offering ds),
    receive_all-answers ds (begin_find_interface intf_id e).0,
    refl,
    refl,
  )
