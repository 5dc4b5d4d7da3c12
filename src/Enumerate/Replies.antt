-- ===== src/Enumerate/Replies.antt =====
-- What the handlers of lib/bus/include/robobus/network/interface/enumerate_interface.hpp send, in a
-- state made of bytes.
use robobus.Base.{
  ℕ, ◌≡◌, refl, subst, arith, Bool, true, false, some, none, Option, List, [], ◌∷◌, ◌==◌, ◌>>=◌,
  if◌then◌else◌, Bool-cases, Option-cases, inl, inr, All,
}
use mathlib.Core.Option.{some-injective}
use robobus.Wire.{Address}
use robobus.Wire.Parts.{IsByte}
use robobus.Enumerate.Encoder.{decode}
use robobus.Enumerate.State.{Name, Name-discrete, Interface, DeviceSummary, Enumerator, Action}
use robobus.Enumerate.Server.{
  string_message, send_string, send_device, send_interface, references, encode_string, collect,
}
use robobus.Enumerate.Frames.{AllSent, string_message_room}
use robobus.Enumerate.Bounds.{
  Bytes, IsSummary, IsEntry, IsByteWide, IsCanFrame, reply-IsCanFrame, encode-All, decode-All,
  collect-All, string_message-Bytes,
}

-- What a handler leaves and sends, if it gets to its end.
abbrev pub Keeps : Option (Enumerator × List Action) → Type 0
Keeps none = Unit
Keeps (some (e, actions)) = IsByteWide e × AllSent IsCanFrame actions

pub Keeps->>= :
    {A : Type 0} (m : Option A) (f : A → Option (Enumerator × List Action))
    → ((a : A) → m ≡ some a → Keeps (f a))
    → Keeps (m >>= f)
Keeps->>= none f h = tt
Keeps->>= (some a) f h = h a refl

pub Keeps-if :
    (b : Bool) (x y : Option (Enumerator × List Action))
    → Keeps x
    → Keeps y
    → Keeps (if b then x else y)
Keeps-if true x y h k = h
Keeps-if false x y h k = k

pub Keeps-some :
    (m : Option (Enumerator × List Action)) (r : Enumerator × List Action)
    → Keeps m
    → m ≡ some r
    → IsByteWide r.0 × AllSent IsCanFrame r.1
Keeps-some none r h e = cc
Keeps-some (some s) r h e =
    subst (λ (x : Enumerator × List Action). IsByteWide x.0 × AllSent IsCanFrame x.1)
      (some-injective _ _ e) h

encode_string-IsByteWide :
    (s : Name) (e : Enumerator)
    → IsByteWide e
    → Bytes s
    → IsByteWide (encode_string s e).0 × IsByte (encode_string s e).1
encode_string-IsByteWide s e w h =
    let (kept, code) = encode-All Bytes Name-discrete s e.collected_strings w.strings h in
    (
      record {
        addresses = w.addresses;
        entries = w.entries;
        port_byte = w.port_byte;
        next_byte = w.next_byte;
        strings = kept;
        known = w.known;
        creator_bytes = w.creator_bytes;
        name_bytes = w.name_bytes;
      },
      code,
    )

module _ (from : Address) (hf : IsByte from.id) where
  pub references-IsCanFrame :
      (e : Enumerator) (intf_id : ℕ) (m : List (ℕ × Interface))
      → IsByteWide e
      → All IsEntry m
      → AllSent IsCanFrame (references e from intf_id m)
  unfolding references
  references-IsCanFrame e intf_id [] w h = tt
  references-IsCanFrame e intf_id ((port, intf) ∷ rest) w ((port_byte, _, _), h) =
      elim (Bool-cases (intf.id == intf_id)) [
        | inl hit ↦ rw hit (
          reply-IsCanFrame e from (0x17 ∷ port ∷ []) w hf (omega arith) (omega arith) (omega arith),
          references-IsCanFrame e intf_id rest w h,
        )
        | inr miss ↦ rw miss (references-IsCanFrame e intf_id rest w h)
      ]

  pub send_string-IsCanFrame :
      (id index : ℕ) (e : Enumerator)
      → IsByte id
      → IsByte index
      → IsByteWide e
      → AllSent IsCanFrame (send_string from id index e)
  unfolding send_string
  send_string-IsCanFrame id index e hid hindex w =
      elim (Option-cases (decode id e.collected_strings)) [
        | inl missing ↦ rw (missing, send_string) tt
        | inr (str, here) ↦
            let (opcode, room) = string_message_room id index str in
            let bytes = decode-All Bytes id e.collected_strings str w.strings here in
            rw (here, send_string)
              (
                reply-IsCanFrame e from (string_message id index str) w hf
                    (string_message-Bytes id index str hid hindex bytes) opcode room,
                tt,
              )
      ]

  pub send_interface-Keeps :
      (index : ℕ) (e : Enumerator)
      → IsByte index
      → IsByteWide e
      → Keeps (some (send_interface from index e))
  unfolding send_interface
  send_interface-Keeps index e hi w = elim (Option-cases (decode index e.collected_interfaces)) [
    | inl missing ↦ rw (missing, send_interface) (w, tt)
    | inr (intf, here) ↦
        let s = decode-All IsSummary index e.collected_interfaces intf w.known here in
        let (w', code) = encode_string-IsByteWide intf.name e w s.name_bytes in
        let (e', name) = encode_string intf.name e in
        rw (here, send_interface)
          (
            w',
            (
              reply-IsCanFrame e' from (0x13 ∷ index ∷ intf.port ∷ intf.id ∷ name ∷ []) w' hf
                  (omega arith, (hi, (s.port_byte, (s.id_byte, (code, tt))))) (omega arith)
                  (omega arith),
              tt,
            ),
          )
  ]

  pub send_device-Keeps :
      (summary : DeviceSummary) (e : Enumerator)
      → All IsSummary summary.interfaces
      → Bytes summary.meta.creator
      → Bytes summary.meta.name
      → IsByteWide e
      → Keeps (some (send_device from summary e))
  unfolding send_device
  send_device-Keeps summary e hs hc hn w =
      let e1 = record e {
        collected_interfaces = collect summary.interfaces e.collected_interfaces;
      } in
      let collected = collect-All IsSummary summary.interfaces e.collected_interfaces w.known hs in
      let w1 : IsByteWide e1 = record {
        addresses = w.addresses;
        entries = w.entries;
        port_byte = w.port_byte;
        next_byte = w.next_byte;
        strings = w.strings;
        known = collected;
        creator_bytes = w.creator_bytes;
        name_bytes = w.name_bytes;
      } in
      let (w2, creator) = encode_string-IsByteWide summary.meta.creator e1 w1 hc in
      let e2 = (encode_string summary.meta.creator e1).0 in
      let (w3, name) = encode_string-IsByteWide summary.meta.name e2 w2 hn in
      let e3 = (encode_string summary.meta.name e2).0 in
      (
        w3,
        (
          reply-IsCanFrame e3 from _ w3 hf (omega arith, (omega arith, (creator, (name, tt))))
              (omega arith) (omega arith),
          tt,
        ),
      )
