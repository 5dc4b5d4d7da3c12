-- ===== src/Enumerate/Tests.antt =====
-- Two devices whose enumeration interfaces talk to each other.
use native.Mathlib.Decide.{ℕ_discrete}
use mathlib.Core.List.{Nodup-cons, Nodup-nil, not-mem-nil}
use robobus.Base.{
  ℕ, suc, zero, ◌<◌, ◌+◌, ◌≡◌, ◌≢◌, refl, arith, some, none, false, List, [], ◌∷◌, ◌++◌, replicate,
  get_elem?,
}
use robobus.Wire.{Address, address, root, broadcast}
use robobus.Device.{get_interface, get_self_id}
use robobus.Enumerate.State.{Name, Enumerator, Action, transmit, device_found}
use robobus.Enumerate.Server.{summaries, own_summary, string_message, await_enumerated}
use robobus.Enumerate.Sample.{own_interface, root_node, new_node, root_node-IsAttached}
use robobus.Enumerate.Encoder.{encode, decode, encode_wraps}
use robobus.Enumerate.Coroutine.{Packet, ret, ◌>>=◌, exec}
use robobus.Enumerate.Client.{query_str, query_device}
use robobus.Enumerate.Transfer.{exec-query_str}
use robobus.Enumerate.Description.{serve}
use robobus.Enumerate.Describe.{exec-query_device}
use robobus.Enumerate.Awaited.{with_waiter}
use robobus.Enumerate.Wakeup.{begin_wait, perform, await_enumerated-resumed}
use robobus.Runtime.{Loop, process_resume_list}
use robobus.Runtime.Resume.{due}
use robobus.Runtime.Sample.{Request, list_queue, busy_loop, ticks}
use robobus.Awaiting.{LazyResumer, new_lazy_resumer, await_ready, await_resume}
use robobus.Enumerate.Ids.{device_id, device_id-distinct, device_id-exhausted}
use robobus.Enumerate.Bus.{IsAttached, deliver}
use robobus.Enumerate.Handshake.{
  three_way_handshake, scan_frame, offer_frame, give_frame, offered, assigned, settled,
}

new_node-IsAttached : IsAttached new_node
unfolding get_interface
new_node-IsAttached = record {
  self = own_interface;
  registered = refl;
  byte_addresses = record { self_byte = omega arith; tag_byte = omega arith };
  byte_port = omega arith;
}

exec-query_device_example :
    (e' : Enumerator) × (exec (serve root) new_node [] (query_device (address 5))
      ≡ some (own_summary new_node, e'))
unfolding summaries
exec-query_device_example =
    exec-query_device root (address 5) new_node refl (Nodup-cons.1 (not-mem-nil, Nodup-nil))
      (omega arith) (omega arith) (omega arith) (omega arith) (omega arith, tt)

-- A peer that has one string only.
abbrev text : Name
text = b'h' ∷ b'e' ∷ b'l' ∷ b'l' ∷ b'o' ∷ []

abbrev talker : ℕ → Address → List ℕ → ℕ × List Packet
talker s dev (op ∷ id ∷ index ∷ rest) =
    (s, record { from = address 9; payload = string_message id index text } ∷ [])
talker s dev question = (s, [])

exec-query_str_example :
    exec talker 0 [] (query_str (address 9) 3 >>= λ x. ret x) ≡ exec talker 0 [] (ret text)
exec-query_str_example =
    exec-query_str talker 0 (address 9) (address 9) 3 text (λ x. ret x) (λ index. refl)
      (omega arith)

get_elem?-replicate : (n k x : ℕ) → get_elem? (replicate n x) k ≢ some (suc x)
get_elem?-replicate zero k x e = cc
get_elem?-replicate (suc n) zero x e = ground arith
get_elem?-replicate (suc n) (suc k) x e = get_elem?-replicate n k x e

encode_wraps_example :
    ((encode ℕ_discrete 8 (replicate 256 7)).1 ≡ 0)
    × (decode 0 (encode ℕ_discrete 8 (replicate 256 7)).0 ≢ some 8)
encode_wraps_example =
    encode_wraps ℕ_discrete 8 (replicate 256 7) refl (λ k. get_elem?-replicate 256 k 7)

three_way_handshake_example :
    (deliver 3 (scan_frame root_node) new_node
      ≡ some (offered 3 new_node, transmit (offer_frame 3 root_node new_node) ∷ []))
    × (deliver 3 (offer_frame 3 root_node new_node) root_node
        ≡ some
            (assigned root_node, transmit (give_frame 3 root_node) ∷ device_found (address 2) ∷ []))
    × (deliver 3 (give_frame 3 root_node) (offered 3 new_node)
        ≡ some (settled (address 2) (offered 3 new_node), []))
    × (get_self_id (offered 3 new_node).device ≡ address 0x83)
    × (get_self_id (settled (address 2) (offered 3 new_node)).device ≡ address 2)
    × ((assigned root_node).next_device_id ≡ address 3)
three_way_handshake_example =
    three_way_handshake 3 root_node new_node root_node-IsAttached new_node-IsAttached refl refl refl
      (omega arith) (omega arith) (omega arith)

device_id-distinct_example :
    (root.id < (device_id 7).id) × ((device_id 7).id < broadcast.id) × (device_id 7 ≢ device_id 8)
device_id-distinct_example = device_id-distinct 7 8 (omega arith) (omega arith) (omega arith)

device_id-exhausted_example :
    (device_id 253 ≡ broadcast)
    × (device_id 254 ≡ address 0)
    × (device_id 255 ≡ root)
    × (device_id (0 + 256) ≡ device_id 0)
device_id-exhausted_example = device_id-exhausted 0

abbrev resumer : LazyResumer Address ℕ
resumer = new_lazy_resumer

-- The device after the handshake.
abbrev named_node : Enumerator
named_node = settled (address 2) (offered 3 (with_waiter new_node))

await_enumerated-resumed_example :
    (await_enumerated new_node ≡ some (with_waiter new_node))
    × (actions : List Action) × (r : LazyResumer Address ℕ) × (loop : Loop (List Request))
    × (deliver 3 (give_frame 3 root_node) (offered 3 (with_waiter new_node))
        ≡ some (named_node, actions))
    × (perform list_queue ticks 10 actions (begin_wait 7 resumer) busy_loop ≡ some (r, loop))
    × ((process_resume_list list_queue ticks 10 loop).1
        ≡ due list_queue ticks 10 busy_loop.resume_list ++ 7 ∷ [])
    × (await_resume r ≡ some (address 2))
    × (await_ready r ≡ false)
    × (get_self_id named_node.device ≡ address 2)
    × (await_enumerated named_node ≡ none)
await_enumerated-resumed_example =
    await_enumerated-resumed list_queue ticks 10 7 resumer busy_loop 3 root_node new_node
      (omega arith) root_node-IsAttached new_node-IsAttached refl refl refl refl (omega arith)
      (omega arith) (omega arith)
