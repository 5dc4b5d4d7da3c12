-- ===== src/Enumerate.antt =====
-- lib/bus/include/robobus/network/interface/enumerate_interface.hpp: the interface by which devices
-- get their addresses and tell about themselves. Bytes of a message, and characters, are numbers.
pub mod Encoder
pub mod State
pub mod Server
pub mod Coroutine
pub mod Client
pub mod Length
pub mod Chunks
pub mod Transfer
pub mod Description
pub mod Query
pub mod Describe
pub mod Bus
pub mod Handshake
pub mod Awaited
pub mod Wakeup
pub mod Ids
pub mod References
pub mod Answers
pub mod Questions
pub mod Remote
pub mod Search
pub mod Frames
pub mod Bounds
pub mod Replies
pub mod Invariant
pub mod Advances
pub mod Steps
pub mod Sample
mod SearchTests
mod StateTests
mod Tests
use robobus.Base.{ℕ, Bool, ◌==◌, if◌then◌else◌}

-- A cast of a byte to the enumeration can make a value with no name.
pub data Opcode : Type 0 where
  scan_unenumerated advertise assign_id query_device device query_interface interface : Opcode
  query_string string_response find_interface interface_reference : Opcode
  other : ℕ → Opcode

abbrev pub code_of : Opcode → ℕ
code_of scan_unenumerated = 0x00
code_of advertise = 0x01
code_of assign_id = 0x02
code_of query_device = 0x10
code_of device = 0x11
code_of query_interface = 0x12
code_of interface = 0x13
code_of query_string = 0x14
code_of string_response = 0x15
code_of find_interface = 0x16
code_of interface_reference = 0x17
code_of (other n) = n

-- `static_cast<Opcode>(n)`
abbrev pub opcode_of : ℕ → Opcode
opcode_of n =
    if n == 0x00
    then scan_unenumerated
    else if n == 0x01
    then advertise
    else if n == 0x02
    then assign_id
    else if n == 0x10
    then query_device
    else if n == 0x11
    then device
    else if n == 0x12
    then query_interface
    else if n == 0x13
    then interface
    else if n == 0x14
    then query_string
    else if n == 0x15
    then string_response
    else if n == 0x16
    then find_interface
    else if n == 0x17
    then interface_reference
    else other n
