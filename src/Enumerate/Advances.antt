-- ===== src/Enumerate/Advances.antt =====
-- What the handlers of lib/bus/include/robobus/network/interface/enumerate_interface.hpp and the calls
-- of device/device.hpp leave of a device.
use robobus.Base.{
  ◌==◌, bit_or, ℕ, ◌≤◌, ◌≡◌, refl, subst, ◌∙◌, arith, Bool, true, false, some, none, Option, List,
  get_elem?, Option-cases, inl, inr, if◌then◌else◌, ◌>>=◌, Bool-cases,
}
use mathlib.Core.Option.{some-injective}
use robobus.Wire.{Address, address}
use robobus.Device.{
  State, not_initialized, id_waiting, initialized, Device, transition_to_id_waiting,
  transition_to_initialized, Feature, has, find, get_interface, add_interface, add_feature,
  is_not_initialized, is_id_waiting, is_initialized,
}
use robobus.Enumerate.{Opcode, opcode_of}
use robobus.Enumerate.Encoder.{decode}
use robobus.Enumerate.State.{Interface, Enumerator, Action}
use robobus.Enumerate.Server.{handshake, respond, send_device, send_interface, handle_rx_async}

abbrev pub rank : State → ℕ
rank not_initialized = 0
rank id_waiting = 1
rank initialized = 2

-- The way of a device: its state goes forward, an interface stays at its port, and an address that
-- was assigned stays.
pub record Advances (d d' : Device Interface) : Type 0 where
  pub forward : rank d.state ≤ rank d'.state
  pub table :
      (port : ℕ) (i : Interface) → get_interface port d ≡ some i → get_interface port d' ≡ some i
  pub settled :
      d.state ≡ initialized
      → (d'.state ≡ initialized) × (d'.self ≡ d.self) × (d'.advertise_tag ≡ d.advertise_tag)

pub Advances-refl : (d : Device Interface) → Advances d d
Advances-refl d = record {
  forward = omega arith;
  table = λ port i h. h;
  settled = λ h. (h, refl, refl);
}

pub Advances-trans : (d e f : Device Interface) → Advances d e → Advances e f → Advances d f
Advances-trans d e f p q = record {
  forward = let a = p.forward in let b = q.forward in omega arith;
  table = λ port i h. q.table port i (p.table port i h);
  settled = λ h.
      let (state, self, tag) = p.settled h in
      let (state', self', tag') = q.settled state in (state', self' ∙ self, tag' ∙ tag);
}

offered-Advances :
    (d : Device Interface) (tag : Address)
    → is_not_initialized d ≡ true
    → Advances d (transition_to_id_waiting tag d)
unfolding transition_to_id_waiting get_interface
offered-Advances d tag here = record {
  forward = ground arith;
  table = λ port i h. h;
  settled = λ h. ground arith;
}

pub assigned-Advances :
    (d : Device Interface) (id : Address)
    → is_initialized d ≡ false
    → Advances d (transition_to_initialized id d)
unfolding transition_to_initialized get_interface
assigned-Advances d id here = record {
  forward = ground arith;
  table = λ port i h. h;
  settled = λ h. ground arith;
}

abbrev Goes : Enumerator → Option (Enumerator × List Action) → Type 0
Goes e none = Unit
Goes e (some (e', actions)) = Advances e.device e'.device

Goes->>= :
    {A : Type 0} (e : Enumerator) (m : Option A) (f : A → Option (Enumerator × List Action))
    → ((a : A) → m ≡ some a → Goes e (f a))
    → Goes e (m >>= f)
Goes->>= e none f h = tt
Goes->>= e (some a) f h = h a refl

Goes-if :
    (e : Enumerator) (b : Bool) (x y : Option (Enumerator × List Action))
    → (b ≡ true → Goes e x)
    → Goes e y
    → Goes e (if b then x else y)
Goes-if e true x y h k = h refl
Goes-if e false x y h k = k

pub Goes-some :
    (e : Enumerator) (m : Option (Enumerator × List Action)) (r : Enumerator × List Action)
    → Goes e m
    → m ≡ some r
    → Advances e.device r.0.device
Goes-some e none r h eq = cc
Goes-some e (some s) r h eq =
    subst (λ (x : Enumerator × List Action). Advances e.device x.0.device) (some-injective _ _ eq) h

module _ (from : Address) (payload : List ℕ) where
  handshake-Goes :
      (o : Opcode) (random : ℕ) (e : Enumerator) → Goes e (handshake o random from payload e)
  unfolding handshake
  handshake-Goes Opcode.scan_unenumerated random e =
      Goes-if e (is_not_initialized e.device) _ _
        (offered-Advances e.device (address (bit_or random 0x80))) (Advances-refl e.device)
  handshake-Goes Opcode.advertise random e =
      Goes-if e (is_initialized e.device) _ _ (λ here. Advances-refl e.device)
        (Advances-refl e.device)
  handshake-Goes Opcode.assign_id random e =
      Goes-if e (is_id_waiting e.device) _ _
        (λ here. Goes->>= e (get_elem? payload 1) _ (λ id at.
          let advances = assigned-Advances e.device (address id) (ground arith) in
          Goes-if e e.waiter_available _ _ (λ w. advances) advances))
        (Advances-refl e.device)
  handshake-Goes command random e = Advances-refl e.device

  send_interface-Goes : (index : ℕ) (e : Enumerator) → Goes e (some (send_interface from index e))
  unfolding send_interface
  send_interface-Goes index e = elim (Option-cases (decode index e.collected_interfaces)) [
    | inl missing ↦ rw (missing, send_interface) (Advances-refl e.device)
    | inr (intf, here) ↦ rw (here, send_interface) (Advances-refl e.device)
  ]

  respond-Goes : (o : Opcode) (e : Enumerator) → Goes e (respond o from payload e)
  unfolding respond send_device
  respond-Goes Opcode.query_device e = Advances-refl e.device
  respond-Goes Opcode.query_interface e =
      Goes->>= e (get_elem? payload 1) _ (λ index at. send_interface-Goes index e)
  respond-Goes Opcode.query_string e =
      Goes->>= e (get_elem? payload 1) _
        (λ id at. Goes->>= e (get_elem? payload 2) _ (λ index there. Advances-refl e.device))
  respond-Goes Opcode.interface_reference e =
      Goes->>= e (get_elem? payload 1) _ (λ port at. Advances-refl e.device)
  respond-Goes Opcode.find_interface e =
      Goes->>= e (get_elem? payload 1) _ (λ intf_id at. Advances-refl e.device)
  respond-Goes command e = Advances-refl e.device

  pub handle_rx_async-Goes :
      (random : ℕ) (e : Enumerator) → Goes e (handle_rx_async random from payload e)
  unfolding handle_rx_async
  handle_rx_async-Goes random e = Goes->>= e (get_elem? payload 0) _ (λ op _.
      Goes->>= e (handshake (opcode_of op) random from payload e) _ (λ r first.
        Goes->>= e (respond (opcode_of op) from payload r.0) _ (λ s second.
          Advances-trans e.device r.0.device s.0.device
            (Goes-some e _ r (handshake-Goes (opcode_of op) random e) first)
            (Goes-some r.0 _ s (respond-Goes (opcode_of op) r.0) second))))

-- `AddFeature` leaves all that matters here, and `AddInterface` takes no port that is taken.
pub add_feature-Advances : (f : Feature) (d : Device Interface) → Advances d (add_feature f d)
unfolding add_feature get_interface
add_feature-Advances f d = record {
  forward = omega arith;
  table = λ port i h. h;
  settled = λ h. (h, refl, refl);
}

pub add_interface-Advances :
    (port : ℕ) (i : Interface) (d : Device Interface) → Advances d (add_interface port (some i) d).0
unfolding add_interface get_interface has find
add_interface-Advances port i d = elim (Bool-cases (has port d.interfaces)) [
  | inl taken ↦ rw taken (Advances-refl d)
  | inr free ↦ rw free (record {
    forward = omega arith;
    table = λ q j h. elim (Bool-cases (port == q)) [
      | inl same ↦ absurd (ground arith)
      | inr other ↦ ground arith
    ];
    settled = λ h. (h, refl, refl);
  })
]
