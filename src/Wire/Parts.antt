-- ===== src/Wire/Parts.antt =====
-- The fields of a P2P identifier, on lib/bus/include/robobus/network/p2p_message_id.hpp.
use robobus.Base.{ℕ, ◌+◌, ◌*◌, ◌/◌, ◌^◌, ◌<◌, ◌≡◌, ap, sym, ◌∙◌, arith, bit_and}
use robobus.Base.Bits.{bit_or-join, bit_and_seven, bit_and_byte}
use robobus.Wire.{
  Address, address, raw_p2p, kind_of, get_kind, get_source, get_destination, get_id, from_parts,
}

-- An address fits a byte.
abbrev pub IsByte : ℕ → Type 0
IsByte n = n < 256

-- The `|` of the four shifted parts is their sum: no part reaches into another.
pub from_parts-eq-sum :
    (from dest : Address) (id : ℕ)
    → IsByte from.id
    → IsByte dest.id
    → IsByte id
    → from_parts from dest id ≡ 2 ^ 24 + from.id * 2 ^ 16 + dest.id * 2 ^ 8 + id
unfolding from_parts
from_parts-eq-sum from dest id hf hd hi = rw (
  bit_or-join 24 1 (2 ^ 24) (from.id * 2 ^ 16) (omega arith) (omega arith),
  bit_or-join 16 (2 ^ 8 + from.id) (2 ^ 24 + from.id * 2 ^ 16) (dest.id * 2 ^ 8) (omega arith)
      (omega arith),
  bit_or-join 8 (2 ^ 16 + from.id * 2 ^ 8 + dest.id) (2 ^ 24 + from.id * 2 ^ 16 + dest.id * 2 ^ 8)
      id (omega arith) (omega arith),
)

-- Reading back the parts.
pub record HasParts (raw : ℕ) (from dest : Address) (id : ℕ) : Type 0 where
  pub kind : get_kind raw ≡ raw_p2p
  pub source : get_source raw ≡ from
  pub destination : get_destination raw ≡ dest
  pub port : get_id raw ≡ id

-- The identifier that `FromParts` makes of byte-wide parts is of the raw P2P kind, has the given
-- source, destination and interface number in its fields, and stays below 2 ^ 25, so that it fits
-- the 29 bits of an extended CAN identifier.
pub from_parts-HasParts :
    (from dest : Address) (id : ℕ)
    → IsByte from.id
    → IsByte dest.id
    → IsByte id
    → HasParts (from_parts from dest id) from dest id × (from_parts from dest id < 2 ^ 25)
unfolding get_kind get_source get_destination get_id
from_parts-HasParts from dest id hf hd hi =
    let e = from_parts-eq-sum from dest id hf hd hi in
    let raw = from_parts from dest id in
    let kind : bit_and (raw / 2 ^ 24) 7 ≡ 1 = omega (arith, bit_and_seven (raw / 2 ^ 24)) in
    let source : bit_and (raw / 2 ^ 16) 0xff ≡ from.id =
      omega (arith, bit_and_byte (raw / 2 ^ 16)) in
    let dest' : bit_and (raw / 2 ^ 8) 0xff ≡ dest.id = omega (arith, bit_and_byte (raw / 2 ^ 8)) in
    (
      record {
        kind = ap kind_of kind;
        source = ap address source;
        destination = ap address dest';
        port = omega (arith, bit_and_byte raw);
      },
      omega arith,
    )

-- Two identifiers agree only if their parts do.
pub from_parts-injective :
    (from from' dest dest' : Address) (id id' : ℕ)
    → IsByte from.id
    → IsByte dest.id
    → IsByte id
    → IsByte from'.id
    → IsByte dest'.id
    → IsByte id'
    → from_parts from dest id ≡ from_parts from' dest' id'
    → (from ≡ from') × (dest ≡ dest') × (id ≡ id')
from_parts-injective from from' dest dest' id id' hf hd hi hf' hd' hi' e =
    let p = (from_parts-HasParts from dest id hf hd hi).0 in
    let q = (from_parts-HasParts from' dest' id' hf' hd' hi').0 in
    (
      sym p.source ∙ ap get_source e ∙ q.source,
      sym p.destination ∙ ap get_destination e ∙ q.destination,
      sym p.port ∙ ap get_id e ∙ q.port,
    )
