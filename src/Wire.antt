-- ===== src/Wire.antt =====
-- lib/bus/include/robobus/network/address.hpp, message_id.hpp and p2p_message_id.hpp: addresses,
-- and the fields of a message identifier on the CAN bus. A word is its value as a number; a shift
-- left multiplies by a power of two, and one right divides.
pub mod Parts
mod Tests
use robobus.Base.{ℕ, ◌*◌, ◌/◌, ◌^◌, ◌≡◌, Bool, not, ◌==◌, if◌then◌else◌, bit_and, bit_or}

pub record Address : Type 0 where
  pub id : ℕ

abbrev pub address : ℕ → Address
address n = record { id = n }

-- `Get`
abbrev pub get : Address → ℕ
get a = a.id

unfoldable pub is_initialized : Address → Bool
is_initialized a = not (a.id == 0)

-- `operator==`
abbrev pub same_address : Address → Address → Bool
same_address a b = a.id == b.id

abbrev pub broadcast : Address
broadcast = address 255

abbrev pub root : Address
root = address 1

-- The enumeration has a byte for its base type, so a cast can make a value with no name.
pub data MessageKind : Type 0 where
  emergency raw_p2p stream multi_cast k_max : MessageKind
  reserved : ℕ → MessageKind

-- `static_cast<MessageKind>(n)`
abbrev pub kind_of : ℕ → MessageKind
kind_of n =
    if n == 0
    then emergency
    else if n == 1
    then raw_p2p
    else if n == 2
    then stream
    else if n == 3
    then multi_cast
    else if n == 4
    then k_max
    else reserved n

-- `static_cast<int>(kind)`
abbrev pub code_of : MessageKind → ℕ
code_of emergency = 0
code_of raw_p2p = 1
code_of stream = 2
code_of multi_cast = 3
code_of k_max = 4
code_of (reserved n) = n

-- `MessageID::GetKind`
unfoldable pub get_kind : ℕ → MessageKind
get_kind raw = kind_of (bit_and (raw / 2 ^ 24) 7)

-- `P2PMessageID`
unfoldable pub get_source : ℕ → Address
get_source raw = address (bit_and (raw / 2 ^ 16) 0xff)

unfoldable pub get_destination : ℕ → Address
get_destination raw = address (bit_and (raw / 2 ^ 8) 0xff)

unfoldable pub get_id : ℕ → ℕ
get_id raw = bit_and raw 0xff

-- The four `|=` of `FromParts`, in their order.
unfoldable pub from_parts : Address → Address → ℕ → ℕ
from_parts from dest id =
    let kind = bit_or 0 (code_of raw_p2p * 2 ^ 24) in
    let source = bit_or kind (get from * 2 ^ 16) in
    let both = bit_or source (get dest * 2 ^ 8) in bit_or both id
