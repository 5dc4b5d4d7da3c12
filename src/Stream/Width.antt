-- ===== src/Stream/Width.antt =====
-- The calls of a stream and the control data that they send, in lib/bus/include/robobus/network/
-- cstream.hpp: codes of 32 bits in eight bytes.
use robobus.Base.{
  ℕ, ◌+◌, ◌*◌, ◌/◌, ◌^◌, ◌≤◌, ◌≡◌, refl, ap, arith, some, List, [], ◌∷◌, ◌++◌, length, All,
  All-get_elem?, get_elem?_of_lt,
}
use robobus.Base.Bits.{bit_and_byte}
use robobus.Wire.Parts.{IsByte}
use robobus.Stream.Code.{IsWord, join_bytes}
use robobus.Stream.Inbound.{InboundEvent, feedback_updated, delivered, inbound_ok}
use robobus.Stream.Outbound.{OutboundEvent, data_updated, validate_updated, outbound_ok}
use robobus.Stream.Control.{
  Event, tx_ctrl, tx_data, rx_data, rx_ok, tx_ok, control_data, read_word, inbound_events,
  outbound_events,
}

-- Eight bytes or more, of which the first eight are read.
pub record IsControl (payload : List ℕ) : Type 0 where
  pub bytes : All IsByte payload
  pub size : 8 ≤ length payload

-- Every control message among the events has exactly eight bytes.
abbrev pub AllControl : {D : Type 0} → List (Event D) → Type 0
AllControl [] = Unit
AllControl (tx_ctrl payload ∷ rest) = All IsByte payload × (length payload ≡ 8) × AllControl rest
AllControl (tx_data d ∷ rest) = AllControl rest
AllControl (rx_data d ∷ rest) = AllControl rest
AllControl (rx_ok ∷ rest) = AllControl rest
AllControl (tx_ok ∷ rest) = AllControl rest

pub AllControl-append :
    {D : Type 0} (xs ys : List (Event D)) → AllControl xs → AllControl ys → AllControl (xs ++ ys)
AllControl-append [] ys h k = k
AllControl-append (tx_ctrl payload ∷ xs) ys (b, n, h) k = (b, n, AllControl-append xs ys h k)
AllControl-append (tx_data d ∷ xs) ys h k = AllControl-append xs ys h k
AllControl-append (rx_data d ∷ xs) ys h k = AllControl-append xs ys h k
AllControl-append (rx_ok ∷ xs) ys h k = AllControl-append xs ys h k
AllControl-append (tx_ok ∷ xs) ys h k = AllControl-append xs ys h k

control_data-bytes : (h_ov h_if : ℕ) → All IsByte (control_data h_ov h_if)
unfolding control_data
control_data-bytes h_ov h_if = omega (
  arith,
  bit_and_byte (h_ov / 2 ^ 24),
  bit_and_byte (h_ov / 2 ^ 16),
  bit_and_byte (h_ov / 2 ^ 8),
  bit_and_byte (h_ov / 2 ^ 0),
  bit_and_byte (h_if / 2 ^ 24),
  bit_and_byte (h_if / 2 ^ 16),
  bit_and_byte (h_if / 2 ^ 8),
  bit_and_byte (h_if / 2 ^ 0),
)

control_data-length : (h_ov h_if : ℕ) → length (control_data h_ov h_if) ≡ 8
unfolding control_data
control_data-length h_ov h_if = refl

pub inbound_events-AllControl :
    {D : Type 0} (h_ov : ℕ) (events : List (InboundEvent D))
    → AllControl (inbound_events h_ov events)
unfolding inbound_events
inbound_events-AllControl h_ov [] = tt
inbound_events-AllControl h_ov (feedback_updated h_if ∷ rest) = (
  control_data-bytes h_ov h_if,
  control_data-length h_ov h_if,
  inbound_events-AllControl h_ov rest,
)
inbound_events-AllControl h_ov (delivered d ∷ rest) = inbound_events-AllControl h_ov rest
inbound_events-AllControl h_ov (inbound_ok ∷ rest) = inbound_events-AllControl h_ov rest

pub outbound_events-AllControl :
    {D : Type 0} (h_if : ℕ) (events : List (OutboundEvent D))
    → AllControl (outbound_events h_if events)
unfolding outbound_events
outbound_events-AllControl h_if [] = tt
outbound_events-AllControl h_if (validate_updated h_ov ∷ rest) = (
  control_data-bytes h_ov h_if,
  control_data-length h_ov h_if,
  outbound_events-AllControl h_if rest,
)
outbound_events-AllControl h_if (data_updated d ∷ rest) = outbound_events-AllControl h_if rest
outbound_events-AllControl h_if (outbound_ok ∷ rest) = outbound_events-AllControl h_if rest

pub read_word-IsWord :
    (i : ℕ) (p : List ℕ)
    → All IsByte p
    → i + 4 ≤ length p
    → (w : ℕ) × (read_word i p ≡ some w) × IsWord w
unfolding read_word
read_word-IsWord i p h room =
    let (a, ea) = get_elem?_of_lt p i (omega arith) in
    let (b, eb) = get_elem?_of_lt p (i + 1) (omega arith) in
    let (c, ec) = get_elem?_of_lt p (i + 2) (omega arith) in
    let (d, ed) = get_elem?_of_lt p (i + 3) (omega arith) in
    let ha = All-get_elem? IsByte p i h ea in
    let hb = All-get_elem? IsByte p (i + 1) h eb in
    let hc = All-get_elem? IsByte p (i + 2) h ec in
    let hd = All-get_elem? IsByte p (i + 3) h ed in
    let n = a * 2 ^ 24 + b * 2 ^ 16 + c * 2 ^ 8 + d in
    let word : IsWord n = omega arith in
    (
      n,
      rw (ea, eb, ec, ed)
          (ap some
            (join_bytes n a b c d word (omega arith) (omega arith) (omega arith) (omega arith))),
      word,
    )
