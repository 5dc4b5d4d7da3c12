-- ===== src/Enumerate/Steps.antt =====
-- What can happen to a device and its `EnumerateInterface`, of lib/bus/include/robobus/network/device/
-- device.hpp and interface/enumerate_interface.hpp, one message or call after another.
use robobus.Base.{
  Option, none, some, ℕ, ◌≤◌, ◌≡◌, subst, sym, arith, true, false, List, inl, inr, Bool-cases,
}
use robobus.Wire.{Address}
use robobus.Wire.Parts.{IsByte}
use robobus.Device.{
  initialized, transition_to_initialized, Feature, has, get_interface, add_interface, add_feature,
  is_initialized,
}
use robobus.Enumerate.State.{Name, Interface, Enumerator, Action, set_creator, set_name}
use robobus.Enumerate.Server.{
  handle_rx_async, begin_find_interface, end_find_interface, await_enumerated,
}
use robobus.Enumerate.Bounds.{Bytes, IsEntry, IsByteWide}
use robobus.Enumerate.Replies.{Keeps-some}
use robobus.Enumerate.Invariant.{handle_rx_async-IsByteWide}
use robobus.Enumerate.Advances.{
  rank, Advances, Advances-refl, Advances-trans, assigned-Advances, add_feature-Advances,
  add_interface-Advances, Goes-some, handle_rx_async-Goes,
}

-- An interface that is added is made of bytes; a null pointer is none.
abbrev pub IsAdded : ℕ → Option Interface → Type 0
IsAdded port none = Unit
IsAdded port (some i) = IsEntry (port, i)

-- A message of bytes that is handled to its end, and the calls of the upper layer: those of
-- `EnumerateInterface`, and of `Device` `AddInterface` and `AddFeature`, and `TransitionToInitialized`
-- on a device that is not initialized, as a root gets its address.
pub data Step (e : Enumerator) : Enumerator → Type 0 where
  receive :
      {e' : Enumerator} (random : ℕ) (from : Address) (payload : List ℕ) (actions : List Action)
      → IsByte random
      → IsByte from.id
      → Bytes payload
      → handle_rx_async random from payload e ≡ some (e', actions)
      → Step e e'
  begin_find :
      {e' : Enumerator} (interface_id : ℕ)
      → e' ≡ (begin_find_interface interface_id e).0
      → Step e e'
  end_find : {e' : Enumerator} → e' ≡ (end_find_interface e).0 → Step e e'
  await_address : {e' : Enumerator} → await_enumerated e ≡ some e' → Step e e'
  call_creator :
      {e' : Enumerator} (creator : Name) → Bytes creator → e' ≡ set_creator creator e → Step e e'
  call_name : {e' : Enumerator} (name : Name) → Bytes name → e' ≡ set_name name e → Step e e'
  register :
      {e' : Enumerator} (port : ℕ) (i : Option Interface)
      → IsAdded port i
      → e' ≡ record e { device = (add_interface port i e.device).0 }
      → Step e e'
  call_feature :
      {e' : Enumerator} (f : Feature)
      → e' ≡ record e { device = add_feature f e.device }
      → Step e e'
  set_up :
      {e' : Enumerator} (id : Address)
      → IsByte id.id
      → is_initialized e.device ≡ false
      → e' ≡ record e { device = transition_to_initialized id e.device }
      → Step e e'

pub data Reach (e : Enumerator) : Enumerator → Type 0 where
  here : Reach e e
  after : {d f : Enumerator} → Reach e d → Step d f → Reach e f

await_enumerated-some :
    (e e' : Enumerator) → await_enumerated e ≡ some e' → e' ≡ record e { waiter_available = true }
unfolding await_enumerated
await_enumerated-some e e' h = ground arith

-- What is kept in a step.
abbrev Kept : Enumerator → Enumerator → Type 0
Kept e e' = Advances e.device e'.device × IsByteWide e'

Kept-eq : (e e' e'' : Enumerator) → e'' ≡ e' → Kept e e' → Kept e e''
Kept-eq e e' e'' p = subst (λ (x : Enumerator). Kept e x) (sym p)

add_interface-IsByteWide :
    (port : ℕ) (i : Interface) (e : Enumerator)
    → IsEntry (port, i)
    → IsByteWide e
    → IsByteWide (record e { device = (add_interface port (some i) e.device).0 })
unfolding add_interface
add_interface-IsByteWide port i e entry w = elim (Bool-cases (has port e.device.interfaces)) [
  | inl taken ↦ rw taken w
  | inr free ↦ rw free (record {
    addresses = record { self_byte = w.addresses.self_byte; tag_byte = w.addresses.tag_byte };
    entries = (entry, w.entries);
    port_byte = w.port_byte;
    next_byte = w.next_byte;
    strings = w.strings;
    known = w.known;
    creator_bytes = w.creator_bytes;
    name_bytes = w.name_bytes;
  })
]

Step-lem : (e e' : Enumerator) → Step e e' → IsByteWide e → Kept e e'
unfolding begin_find_interface end_find_interface add_interface add_feature
    transition_to_initialized
Step-lem e e' (receive random from payload actions hr hf hp h) w = (
  Goes-some e _ (e', actions) (handle_rx_async-Goes from payload random e) h,
  (Keeps-some _ (e', actions) (handle_rx_async-IsByteWide from hf payload hp random e hr w) h).0,
)
Step-lem e e' (begin_find interface_id h) w =
    Kept-eq e (begin_find_interface interface_id e).0 e' h (Advances-refl e.device, ground arith)
Step-lem e e' (end_find h) w =
    Kept-eq e (end_find_interface e).0 e' h (Advances-refl e.device, ground arith)
Step-lem e e' (await_address h) w =
    Kept-eq e (record e { waiter_available = true }) e' (await_enumerated-some e e' h)
      (Advances-refl e.device, ground arith)
Step-lem e e' (call_creator creator bytes h) w =
    Kept-eq e (set_creator creator e) e' h (Advances-refl e.device, ground arith)
Step-lem e e' (call_name name bytes h) w =
    Kept-eq e (set_name name e) e' h (Advances-refl e.device, ground arith)
Step-lem e e' (register port none entry h) w = Kept-eq e e e' h (Advances-refl e.device, w)
Step-lem e e' (register port (some i) entry h) w =
    Kept-eq e (record e { device = (add_interface port (some i) e.device).0 }) e' h
      (add_interface-Advances port i e.device, add_interface-IsByteWide port i e entry w)
Step-lem e e' (call_feature f h) w =
    Kept-eq e (record e { device = add_feature f e.device }) e' h
      (add_feature-Advances f e.device, ground arith)
Step-lem e e' (set_up id byte fresh h) w =
    Kept-eq e (record e { device = transition_to_initialized id e.device }) e' h
      (assigned-Advances e.device id fresh, ground arith)

Reach-lem : (e e' : Enumerator) → IsByteWide e → Reach e e' → Kept e e'
Reach-lem e e' w here = (Advances-refl e.device, w)
Reach-lem e e' w (after {d} r step) =
    let (so_far, w') = Reach-lem e d w r in
    let (now, w'') = Step-lem d e' step w' in
    (Advances-trans e.device d.device e'.device so_far now, w'')

-- Over messages of bytes that a device handles, and calls of the methods of `EnumerateInterface`, of
-- `AddInterface` and `AddFeature`, and of `TransitionToInitialized` on a device that is not
-- initialized, a device never goes back to an earlier state, and an interface stays at its port;
-- once the device is initialized, it stays so, with its address and its tag; and its state stays
-- made of bytes if it was. What is added and set is made of bytes too. The upper layer does not call
-- `TransitionToIdWaiting`, nor `TransitionToInitialized` on an initialized device.
pub Reach-Advances :
    (e e' : Enumerator) (port : ℕ) (i : Interface)
    → IsByteWide e
    → Reach e e'
    → (rank e.device.state ≤ rank e'.device.state)
      × (get_interface port e.device ≡ some i → get_interface port e'.device ≡ some i)
      × (e.device.state ≡ initialized
          → (e'.device.state ≡ initialized)
            × (e'.device.self ≡ e.device.self)
            × (e'.device.advertise_tag ≡ e.device.advertise_tag))
      × IsByteWide e'
Reach-Advances e e' port i w run =
    let (all, w') = Reach-lem e e' w run in (all.forward, all.table port i, all.settled, w')
