-- ===== src/Enumerate/Frames.antt =====
-- The frames that the handlers of lib/bus/include/robobus/network/interface/enumerate_interface.hpp
-- send, against the room in a CAN frame.
use robobus.Base.{
  ℕ, zero, suc, ◌+◌, ◌*◌, ◌/◌, ◌≤◌, ◌≡◌, refl, subst, arith, some, none, Option, List, [], ◌∷◌,
  ◌++◌, length, length-take, get_elem?, ◌==◌, ◌>>=◌, Bool-cases, Option-cases, inl, inr, drop,
}
use mathlib.Core.Option.{some-injective}
use robobus.Wire.{Address}
use robobus.Network.{Frame}
use robobus.Enumerate.{Opcode, opcode_of}
use robobus.Enumerate.Encoder.{decode}
use robobus.Enumerate.State.{Name, Interface, Enumerator, Action, transmit, device_found, resume}
use robobus.Enumerate.Server.{
  string_message, send_string, send_device, send_interface, handshake, respond, references,
  handle_rx_async,
}
use robobus.Enumerate.Length.{length_bytes}
use robobus.Enumerate.Chunks.{string_message-length, string_message-chunk}

-- What every frame that is sent satisfies.
abbrev pub AllSent : (Frame → Type 0) → List Action → Type 0
AllSent P [] = Unit
AllSent P (transmit f ∷ rest) = P f × AllSent P rest
AllSent P (device_found a ∷ rest) = AllSent P rest
AllSent P (resume a ∷ rest) = AllSent P rest

pub AllSent-append :
    (P : Frame → Type 0) (xs ys : List Action) → AllSent P xs → AllSent P ys → AllSent P (xs ++ ys)
AllSent-append P [] ys h k = k
AllSent-append P (transmit f ∷ xs) ys (p, h) k = (p, AllSent-append P xs ys h k)
AllSent-append P (device_found a ∷ xs) ys h k = AllSent-append P xs ys h k
AllSent-append P (resume a ∷ xs) ys h k = AllSent-append P xs ys h k

-- A CAN frame has room for eight bytes, and the first one is the opcode.
pub record FitsCan (f : Frame) : Type 0 where
  pub has_opcode : 1 ≤ length f.payload
  pub room : length f.payload ≤ 8

-- The actions of a handler that got to its end.
abbrev pub SentBy : (Frame → Type 0) → Option (Enumerator × List Action) → Type 0
SentBy P none = Unit
SentBy P (some (e, actions)) = AllSent P actions

-- After a step that may fail.
pub SentBy->>= :
    {A : Type 0} (P : Frame → Type 0) (m : Option A) (f : A → Option (Enumerator × List Action))
    → ((a : A) → m ≡ some a → SentBy P (f a))
    → SentBy P (m >>= f)
SentBy->>= P none f h = tt
SentBy->>= P (some a) f h = h a refl

pub SentBy-some :
    (P : Frame → Type 0) (m : Option (Enumerator × List Action)) (r : Enumerator × List Action)
    → SentBy P m
    → m ≡ some r
    → AllSent P r.1
SentBy-some P none r h e = cc
SentBy-some P (some s) r h e =
    subst (λ (x : Enumerator × List Action). AllSent P x.1) (some-injective _ _ e) h

length-length_bytes : (k n : ℕ) → length (length_bytes k n) ≤ k
unfolding length_bytes
length-length_bytes zero n = omega arith
length-length_bytes (suc k) n = ground (arith, length-length_bytes k (n / 256))

pub string_message_room :
    (id index : ℕ) (str : Name)
    → (1 ≤ length (string_message id index str)) × (length (string_message id index str) ≤ 8)
string_message_room id zero str =
    rw (string_message-length id str) (omega (arith, length-length_bytes 5 (length str)))
string_message_room id (suc i) str =
    let next : i + 1 ≡ suc i = omega arith in
    let e = string_message-chunk id i str in
    subst (λ k. (1 ≤ length (string_message id k str)) × (length (string_message id k str) ≤ 8))
      next (rw e (omega (arith, length-take 4 (drop (i * 4) str))))

references_room :
    (e : Enumerator) (from : Address) (intf_id : ℕ) (m : List (ℕ × Interface))
    → AllSent FitsCan (references e from intf_id m)
unfolding references robobus.Network.send
references_room e from intf_id [] = tt
references_room e from intf_id ((port, intf) ∷ rest) = elim (Bool-cases (intf.id == intf_id)) [
  | inl hit ↦
      rw hit (
        record { has_opcode = omega arith; room = omega arith },
        references_room e from intf_id rest,
      )
  | inr miss ↦ rw miss (references_room e from intf_id rest)
]

handshake_room :
    (o : Opcode) (random : ℕ) (from : Address) (payload : List ℕ) (e : Enumerator)
    → SentBy FitsCan (handshake o random from payload e)
unfolding handshake robobus.Network.send
handshake_room Opcode.scan_unenumerated random from payload e = ground arith
handshake_room Opcode.advertise random from payload e = ground arith
handshake_room Opcode.assign_id random from payload e = ground arith
handshake_room command random from payload e = tt

send_string_room :
    (dest : Address) (id index : ℕ) (e : Enumerator) → AllSent FitsCan (send_string dest id index e)
unfolding send_string robobus.Network.send
send_string_room dest id index e = elim (Option-cases (decode id e.collected_strings)) [
  | inl missing ↦ rw (missing, send_string) tt
  | inr (str, here) ↦
      let (opcode, room) = string_message_room id index str in
      rw (here, send_string) (record { has_opcode = opcode; room = room }, tt)
]

respond_room :
    (o : Opcode) (from : Address) (payload : List ℕ) (e : Enumerator)
    → SentBy FitsCan (respond o from payload e)
unfolding respond send_device send_interface robobus.Network.send
respond_room Opcode.query_device from payload e = ground arith
respond_room Opcode.query_interface from payload e = ground arith
respond_room Opcode.query_string from payload e =
    SentBy->>= FitsCan (get_elem? payload 1) _ (λ id _.
      SentBy->>= FitsCan (get_elem? payload 2) _ (λ index _. send_string_room from id index e))
respond_room Opcode.find_interface from payload e =
    SentBy->>= FitsCan (get_elem? payload 1) _
      (λ intf_id _. references_room e from intf_id e.device.interfaces)
respond_room Opcode.interface_reference from payload e = ground arith
respond_room command from payload e = tt

-- Every frame that a handler sends has an opcode and fits the eight bytes of a CAN frame, whatever
-- came in and whatever the state.
pub handle_rx_async-FitsCan :
    (random : ℕ) (from : Address) (payload : List ℕ) (e : Enumerator)
    → SentBy FitsCan (handle_rx_async random from payload e)
unfolding handle_rx_async
handle_rx_async-FitsCan random from payload e = SentBy->>= FitsCan (get_elem? payload 0) _ (λ op _.
    SentBy->>= FitsCan (handshake (opcode_of op) random from payload e) _ (λ r first.
      SentBy->>= FitsCan (respond (opcode_of op) from payload r.0) _ (λ s second.
        AllSent-append FitsCan r.1 s.1
          (SentBy-some FitsCan _ r (handshake_room (opcode_of op) random from payload e) first)
          (SentBy-some FitsCan _ s (respond_room (opcode_of op) from payload r.0) second))))
