-- ===== src/Enumerate/Bounds.antt =====
-- Bytes in the state and in the frames of lib/bus/include/robobus/network/interface/
-- enumerate_interface.hpp.
use robobus.Base.{
  ℕ, zero, suc, ◌+◌, ◌*◌, ◌/◌, ◌^◌, ◌<◌, ◌≤◌, ◌≡◌, sym, ◌∙◌, subst, arith, some, List, [], ◌∷◌,
  length, ltb, Bool-cases, inl, inr, All, All-append, All-get_elem?, All-take, All-drop,
}
use robobus.Wire.{Address}
use robobus.Wire.Parts.{IsByte, from_parts-HasParts}
use robobus.Device.{get_self_id}
use robobus.Network.{Frame, send}
use robobus.Network.Routing.{HasByteAddresses, get_self_id-IsByte}
use robobus.Enumerate.Encoder.{encode, decode, decode-get_elem?, encode-cases}
use robobus.Enumerate.State.{
  Name, Interface, InterfaceSummary, InterfaceSummary-discrete, Enumerator,
}
use robobus.Enumerate.Server.{string_message, summaries, collect}
use robobus.Enumerate.Length.{length_bytes}
use robobus.Enumerate.Chunks.{string_message-length, string_message-chunk}
use robobus.Enumerate.Frames.{FitsCan}

abbrev pub Bytes : List ℕ → Type 0
Bytes = All IsByte

pub record IsSummary (s : InterfaceSummary) : Type 0 where
  pub port_byte : IsByte s.port
  pub id_byte : IsByte s.id
  pub name_bytes : Bytes s.name

abbrev pub IsEntry : ℕ × Interface → Type 0
IsEntry (port, intf) = IsByte port × IsByte intf.id × Bytes intf.name

-- Every byte of the state is a byte.
pub record IsByteWide (e : Enumerator) : Type 0 where
  pub addresses : HasByteAddresses e.device
  pub entries : All IsEntry e.device.interfaces
  pub port_byte : IsByte e.tx.port
  pub next_byte : IsByte e.next_device_id.id
  pub strings : All Bytes e.collected_strings
  pub known : All IsSummary e.collected_interfaces
  pub creator_bytes : Bytes e.creator
  pub name_bytes : Bytes e.name

-- A frame that the bus can carry: the identifier has 29 bits, and the payload is bytes.
pub record IsCanFrame (f : Frame) : Type 0 where
  pub identifier : f.id < 2 ^ 29
  pub bytes : Bytes f.payload
  pub fits : FitsCan f

pub reply-IsCanFrame :
    (e : Enumerator) (dest : Address) (payload : List ℕ)
    → IsByteWide e
    → IsByte dest.id
    → Bytes payload
    → 1 ≤ length payload
    → length payload ≤ 8
    → IsCanFrame (send e.device e.tx dest payload)
unfolding send
reply-IsCanFrame e dest payload w hd bytes some_ room =
    let small =
      (from_parts-HasParts (get_self_id e.device) dest e.tx.port
        (get_self_id-IsByte e.device w.addresses) hd w.port_byte).1 in
    record {
      identifier = omega arith;
      bytes = bytes;
      fits = record { has_opcode = some_; room = room };
    }

-- Encoding gives a byte, and keeps what holds of every value.
pub encode-All :
    {T : Type 0} (P : T → Type 0) (same : Discrete T) (value : T) (collected : List T)
    → All P collected
    → P value
    → All P (encode same value collected).0 × IsByte (encode same value collected).1
encode-All P same value collected h p = elim (encode-cases same value collected) [
  | inl (k, here, e) ↦ rw e (h, omega arith)
  | inr (new, e) ↦ rw e (All-append P collected (value ∷ []) h (p, tt), omega arith)
]

pub decode-All :
    {T : Type 0} (P : T → Type 0) (k : ℕ) (collected : List T) (value : T)
    → All P collected
    → decode k collected ≡ some value
    → P value
decode-All P k collected value h e =
    All-get_elem? P collected k h (sym (decode-get_elem? k collected) ∙ e)

pub collect-All :
    (P : InterfaceSummary → Type 0) (ss collected : List InterfaceSummary)
    → All P collected
    → All P ss
    → All P (collect ss collected)
unfolding collect
collect-All P [] collected h k = h
collect-All P (s ∷ ss) collected h (p, k) =
    collect-All P ss (encode InterfaceSummary-discrete s collected).0
      (encode-All P InterfaceSummary-discrete s collected h p).0 k

pub summaries-IsSummary : (m : List (ℕ × Interface)) → All IsEntry m → All IsSummary (summaries m)
unfolding summaries
summaries-IsSummary [] h = tt
summaries-IsSummary ((port, intf) ∷ m) ((p, i, n), h) =
    (record { port_byte = p; id_byte = i; name_bytes = n }, summaries-IsSummary m h)

length_bytes-Bytes : (k n : ℕ) → Bytes (length_bytes k n)
unfolding length_bytes
length_bytes-Bytes zero n = tt
length_bytes-Bytes (suc k) n = elim (Bool-cases (ltb 0 n)) [
  | inl more ↦ rw more (omega arith, length_bytes-Bytes k (n / 256))
  | inr done ↦ rw done tt
]

pub string_message-Bytes :
    (id index : ℕ) (str : Name)
    → IsByte id
    → IsByte index
    → Bytes str
    → Bytes (string_message id index str)
string_message-Bytes id zero str hid hindex h =
    rw (string_message-length id str)
      (omega arith, (hid, (omega arith, length_bytes-Bytes 5 (length str))))
string_message-Bytes id (suc i) str hid hindex h =
    let next : i + 1 ≡ suc i = omega arith in
    subst (λ k. Bytes (string_message id k str)) next
      (rw (string_message-chunk id i str)
        (omega arith, (hid, (omega arith, All-take IsByte 4 _ (All-drop IsByte (i * 4) str h)))))
