-- ===== src/Enumerate/Client.antt =====
-- The queries of `EnumerateInterface` in lib/bus/include/robobus/network/interface/
-- enumerate_interface.hpp, by which one device reads another's description.
use robobus.Base.{
  ℕ, zero, suc, ◌+◌, ◌*◌, ◌/◌, ◌%◌, ◌^◌, Option, none, some, List, [], ◌∷◌, ◌++◌, ltb, leb, ◌||◌,
  if◌then◌else◌, length, set, drop, replicate, get_elem?, bit_or,
}
use robobus.Wire.{Address}
use robobus.Enumerate.{Opcode, code_of}
use robobus.Enumerate.State.{Name, InterfaceSummary, DeviceSummary}
use robobus.Enumerate.Coroutine.{Coroutine, ret, ◌>>=◌, ◌>>◌, send_message, receive_await, checked}

-- `length |= data_length[i] << (8 * (i - 3))`, with the shift so far.
unfoldable pub join_length : ℕ → List ℕ → ℕ → ℕ
join_length shift [] len = len
join_length shift (b ∷ rest) len = join_length (shift + 8) rest (bit_or len (b * 2 ^ shift))

-- `length` is an `int`: more than four bytes are shifted past its width, and a negative length
-- makes no string.
unfoldable pub read_length : List ℕ → Option ℕ
unfolding join_length
read_length bytes =
    let len = join_length 0 bytes 0 in
    if ltb 4 (length bytes) || leb (2 ^ 31) len then none else some len

-- `string[at + j] = data[3 + j]`; a write past the end is undefined.
unfoldable pub write_bytes : ℕ → List ℕ → Name → Option Name
write_bytes at [] str = some str
write_bytes at (b ∷ rest) str =
    let next = write_bytes (suc at) rest (set str at b) in
    if ltb at (length str) then next else none

unfoldable pub query_chunks : Address → ℕ → ℕ → ℕ → Name → Coroutine Name
unfolding write_bytes
query_chunks dev str zero i string = ret string
query_chunks dev str (suc rounds) i string = do
  send_message dev (code_of Opcode.query_string ∷ str ∷ ((i + 1) % 256) ∷ [])
  p ← receive_await (code_of Opcode.string_response)
  string' ← checked (write_bytes (i * 4) (drop 3 p.payload) string)
  query_chunks dev str rounds (i + 1) string'

unfoldable pub query_str : Address → ℕ → Coroutine Name
unfolding read_length query_chunks
query_str dev str = do
  send_message dev (code_of Opcode.query_string ∷ str ∷ 0 ∷ [])
  p ← receive_await (code_of Opcode.string_response)
  len ← checked (read_length (drop 3 p.payload))
  query_chunks dev str ((len + 3) / 4) 0 (replicate len b'#')

unfoldable pub query_interface : Address → ℕ → Coroutine InterfaceSummary
unfolding query_str
query_interface dev index = do
  send_message dev (code_of Opcode.query_interface ∷ index ∷ [])
  p ← receive_await (code_of Opcode.interface)
  name_code ← checked (get_elem? p.payload 4)
  intf_name ← query_str dev name_code
  port ← checked (get_elem? p.payload 2)
  id ← checked (get_elem? p.payload 3)
  ret (record { port = port; id = id; name = intf_name })

-- `for (uint8_t index = 0; index < num_interfaces; index++)`
unfoldable pub query_interfaces :
    Address → ℕ → ℕ → List InterfaceSummary → Coroutine (List InterfaceSummary)
unfolding query_interface
query_interfaces dev zero index interfaces = ret interfaces
query_interfaces dev (suc rounds) index interfaces = do
  intf ← query_interface dev index
  query_interfaces dev rounds (index + 1) (interfaces ++ intf ∷ [])

-- `Query` is another name of it.
unfoldable pub query_device : Address → Coroutine DeviceSummary
unfolding query_interfaces query_str
query_device dev = do
  send_message dev (code_of Opcode.query_device ∷ [])
  p ← receive_await (code_of Opcode.device)
  num_interfaces ← checked (get_elem? p.payload 1)
  interfaces ← query_interfaces dev num_interfaces 0 []
  creator_code ← checked (get_elem? p.payload 2)
  creator ← query_str dev creator_code
  name_code ← checked (get_elem? p.payload 3)
  name ← query_str dev name_code
  ret (record { meta = record { creator = creator; name = name }; interfaces = interfaces })
