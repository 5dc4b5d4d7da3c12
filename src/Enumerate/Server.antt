-- ===== src/Enumerate/Server.antt =====
-- The handlers of `EnumerateInterface` in lib/bus/include/robobus/network/interface/
-- enumerate_interface.hpp. A read past the end of a message is undefined in the source, and gives
-- `none` here. The random byte of the tag is an argument.
use robobus.Base.{
  ℕ, zero, suc, ◌+◌, ◌-◌, ◌*◌, ◌/◌, ◌%◌, ◌^◌, true, false, Option, none, some, List, [], ◌∷◌, ◌++◌,
  ◌==◌, ltb, ◌&&◌, if◌then◌else◌, length, get_elem?, get_or, bit_or, bit_and, ◌>>=◌, not,
}
use robobus.Wire.{Address, address, get, broadcast}
use robobus.Device.{
  is_not_initialized, is_id_waiting, is_initialized, transition_to_initialized,
  transition_to_id_waiting,
}
use robobus.Network.{send}
use robobus.Enumerate.{Opcode, code_of, opcode_of}
use robobus.Enumerate.Encoder.{encode, decode}
use robobus.Enumerate.State.{
  Name, Name-discrete, Interface, InterfaceSummary, InterfaceSummary-discrete, DeviceSummary,
  InterfaceRef, get_available_device_id, Enumerator, Action, transmit, device_found, resume,
}

-- `CANTxMixin::Send(dest, data)`
abbrev pub reply : Enumerator → Address → List ℕ → Action
reply e dest payload = transmit (send e.device e.tx dest payload)

-- `collected_strings_.Encode`
abbrev pub encode_string : Name → Enumerator → Enumerator × ℕ
encode_string s e =
    let (strings, code) = encode Name-discrete s e.collected_strings in
    (record e { collected_strings = strings }, code)

-- The first loop of `SendDevice`.
unfoldable pub collect : List InterfaceSummary → List InterfaceSummary → List InterfaceSummary
collect [] collected = collected
collect (intf ∷ rest) collected = collect rest (encode InterfaceSummary-discrete intf collected).0

unfoldable pub send_device : Address → DeviceSummary → Enumerator → Enumerator × List Action
unfolding collect
send_device dest summary e =
    let e1 = record e {
      collected_interfaces = collect summary.interfaces e.collected_interfaces;
    } in
    let (e2, creator) = encode_string summary.meta.creator e1 in
    let (e3, name) = encode_string summary.meta.name e2 in
    (
      e3,
      reply e3 dest
            (code_of Opcode.device ∷ (length summary.interfaces % 256) ∷ creator ∷ name ∷ [])
          ∷ [],
    )

unfoldable pub send_interface : Address → ℕ → Enumerator → Enumerator × List Action
send_interface dest index e = elim (decode index e.collected_interfaces) [
  | none ↦ (e, [])
  | some intf ↦
      let (e', name) = encode_string intf.name e in
      (e', reply e' dest (code_of Opcode.interface ∷ index ∷ intf.port ∷ intf.id ∷ name ∷ []) ∷ [])
]

-- `while (length > 0 && data.size() < 8) { data.push_back(length & 0xFF); length >>= 8; }`
unfoldable pub push_length : ℕ → ℕ → List ℕ → List ℕ
push_length zero len buffer = buffer
push_length (suc rounds) len buffer =
    let rest = push_length rounds (len / 2 ^ 8) (buffer ++ (bit_and len 0xff) ∷ []) in
    if ltb 0 len && ltb (length buffer) 8 then rest else buffer

-- `for (i = i; i < end && i < length; i++) data.push_back(str[i]);`, with `end - i` rounds left.
unfoldable pub push_chunk : ℕ → ℕ → Name → List ℕ → List ℕ
push_chunk zero i str buffer = buffer
push_chunk (suc rounds) i str buffer =
    let rest = push_chunk rounds (i + 1) str (buffer ++ get_or str i 0 ∷ []) in
    if ltb i (length str) then rest else buffer

-- The five rounds are the free cells of the eight that the loop fills at most.
unfoldable pub string_message : ℕ → ℕ → Name → List ℕ
string_message string_id index str =
    let buffer = code_of Opcode.string_response ∷ string_id ∷ index ∷ [] in
    if index == 0
    then push_length 5 (length str) buffer
    else push_chunk 4 ((index - 1) * 4) str buffer

unfoldable pub send_string : Address → ℕ → ℕ → Enumerator → List Action
unfolding string_message
send_string dest string_id index e = elim (decode string_id e.collected_strings) [
  | none ↦ []
  | some str ↦ reply e dest (string_message string_id index str) ∷ []
]

-- The first half of `HandleRxAsync`.
unfoldable pub handshake :
    Opcode → ℕ → Address → List ℕ → Enumerator → Option (Enumerator × List Action)
handshake Opcode.scan_unenumerated random from payload e =
    if is_not_initialized e.device
    then (let e' = record e {
      device = transition_to_id_waiting (address (bit_or random 0x80)) e.device;
    } in
        some (e', reply e' from (code_of Opcode.advertise ∷ []) ∷ []))
    else some (e, [])
handshake Opcode.advertise random from payload e =
    if is_initialized e.device
    then (let (new_device_id, next) = get_available_device_id e.next_device_id in
        let e' = record e { next_device_id = next } in
        some (
          e',
          reply e' from (code_of Opcode.assign_id ∷ get new_device_id ∷ [])
              ∷ device_found new_device_id
              ∷ [],
        ))
    else some (e, [])
handshake Opcode.assign_id random from payload e =
    if is_id_waiting e.device
    then (get_elem? payload 1 >>= λ id.
        let e' = record e { device = transition_to_initialized (address id) e.device } in
        if e'.waiter_available
        then some (record e' { waiter_available = false }, resume (address id) ∷ [])
        else some (e', []))
    else some (e, [])
handshake command random from payload e = some (e, [])

-- The summaries that `kQueryDevice` makes of the table, in the order of the walk.
unfoldable pub summaries : List (ℕ × Interface) → List InterfaceSummary
summaries [] = []
summaries ((port, intf) ∷ rest) =
    record { port = port; id = intf.id; name = intf.name } ∷ summaries rest

abbrev pub own_summary : Enumerator → DeviceSummary
own_summary e = record {
  meta = record { creator = e.creator; name = e.name };
  interfaces = summaries e.device.interfaces;
}

-- The loop of `kFindInterface`.
unfoldable pub references : Enumerator → Address → ℕ → List (ℕ × Interface) → List Action
references e from intf_id [] = []
references e from intf_id ((port, intf) ∷ rest) =
    let others = references e from intf_id rest in
    if not (intf.id == intf_id)
    then others
    else reply e from (code_of Opcode.interface_reference ∷ port ∷ []) ∷ others

-- The second half, the `switch`.
unfoldable pub respond : Opcode → Address → List ℕ → Enumerator → Option (Enumerator × List Action)
unfolding summaries references
respond Opcode.query_device from payload e = some (send_device from (own_summary e) e)
respond Opcode.query_interface from payload e =
    get_elem? payload 1 >>= λ index. some (send_interface from index e)
respond Opcode.query_string from payload e = get_elem? payload 1 >>= λ str_id.
    get_elem? payload 2 >>= λ index. some (e, send_string from str_id index e)
respond Opcode.interface_reference from payload e = get_elem? payload 1 >>= λ intf_port. some (
  record e {
    find_interface_results =
        e.find_interface_results ++ record { dev = from; port = intf_port } ∷ [];
  },
  [],
)
respond Opcode.find_interface from payload e =
    get_elem? payload 1 >>= λ intf_id. some (e, references e from intf_id e.device.interfaces)
respond command from payload e = some (e, [])

-- `HandleRxAsync`
unfoldable pub handle_rx_async :
    ℕ → Address → List ℕ → Enumerator → Option (Enumerator × List Action)
unfolding handshake respond
handle_rx_async random from payload e = get_elem? payload 0 >>= λ op.
    handshake (opcode_of op) random from payload e >>= λ r.
    respond (opcode_of op) from payload r.0 >>= λ s. some (s.0, r.1 ++ s.1)

-- `FindEnumeratedDevices`
unfoldable pub find_enumerated_devices : Enumerator → Action
find_enumerated_devices e = reply e broadcast (code_of Opcode.scan_unenumerated ∷ [])

-- What `FindInterface` does before it sleeps, and after.
unfoldable pub begin_find_interface : ℕ → Enumerator → Enumerator × Action
begin_find_interface interface_id e =
    let e' = record e { find_interface_results = [] } in
    (e', reply e' broadcast (code_of Opcode.find_interface ∷ interface_id ∷ []))

unfoldable pub end_find_interface : Enumerator → Enumerator × List InterfaceRef
end_find_interface e = (record e { find_interface_results = [] }, e.find_interface_results)

-- A coroutine that awaits `AwaitEnumerated`, up to its suspension, on a resumer that knows its loop.
-- On an initialized device `AwaitEnumerated` returns before it is awaited, and its frame is gone with
-- the promise that the awaiter reads then; a second coroutine would read a value that is not there
-- yet. Both are `none`.
unfoldable pub await_enumerated : Enumerator → Option Enumerator
await_enumerated e =
    if is_initialized e.device
    then none
    else if e.waiter_available
    then none
    else some (record e { waiter_available = true })
