-- ===== src/Enumerate/Describe.antt =====
-- `Query` against the handlers of the other side, in lib/bus/include/robobus/network/interface/
-- enumerate_interface.hpp.
use mathlib.Core.List.{
  append_assoc, append-nil, map-append, Nodup, Nodup-append, Mem, mem-cons_self, mem-cons_of_mem,
}
use robobus.Base.{
  ℕ, zero, suc, ◌+◌, ◌%◌, ◌≤◌, ◌≡◌, refl, sym, ap, subst, ◌∙◌, arith, some, List, [], ◌∷◌, ◌++◌,
  map, length, get_elem?,
}
use robobus.Wire.{Address}
use robobus.Device.Table.{ports}
use robobus.Enumerate.Encoder.{
  encode, decode, decode-encode, decode-encode_stable, encode-new, length-encode,
}
use robobus.Enumerate.State.{
  Name, Name-discrete, Interface, InterfaceSummary, InterfaceSummary-discrete, Enumerator,
}
use robobus.Enumerate.Server.{
  encode_string, send_device, summaries, own_summary, collect, handle_rx_async,
}
use robobus.Enumerate.Coroutine.{exec}
use robobus.Enumerate.Client.{query_device}
use robobus.Enumerate.Transfer.{exec-ask}
use robobus.Enumerate.Description.{packets, serve, serve-some, own_address, exec-serve_str}
use robobus.Enumerate.Query.{IsShort, AllShort, learn, learn_all, exec-query_interfaces}

abbrev summary_ports : List InterfaceSummary → List ℕ
summary_ports = map λ s. s.port

get_elem?-Mem :
    (c : List InterfaceSummary) (k : ℕ) (s : InterfaceSummary)
    → get_elem? c k ≡ some s
    → Mem s.port (summary_ports c)
get_elem?-Mem [] k s e = cc
get_elem?-Mem (x ∷ c) zero s e =
    let same : x.port ≡ s.port = ground arith in
    subst (λ p. Mem p (summary_ports (x ∷ c))) same mem-cons_self
get_elem?-Mem (x ∷ c) (suc k) s e = mem-cons_of_mem x.port (get_elem?-Mem c k s e)

-- With distinct ports, the summaries are collected as they are.
collect-summaries :
    (m : List (ℕ × Interface)) (c : List InterfaceSummary)
    → Nodup (summary_ports c ++ ports m)
    → collect (summaries m) c ≡ c ++ summaries m
unfolding collect summaries
collect-summaries [] c h = sym (append-nil c)
collect-summaries ((port, intf) ∷ m) c h =
    let s : InterfaceSummary = record { port = port; id = intf.id; name = intf.name } in
    let distinct = (Nodup-append.0 h).2 in
    let new =
      encode-new InterfaceSummary-discrete s c
        (λ k e. distinct port (get_elem?-Mem c k s e) mem-cons_self) in
    ap (collect (summaries m)) new
    ∙ collect-summaries m (c ++ s ∷ []) (rw (map-append, append_assoc) h)
    ∙ append_assoc c (s ∷ []) (summaries m)

length-summaries : (m : List (ℕ × Interface)) → length (summaries m) ≡ length m
unfolding summaries
length-summaries [] = refl
length-summaries (x ∷ m) = ap suc (length-summaries m)

-- What was sent keeps its number.
decode-learn_all :
    (ss : List InterfaceSummary) (e : Enumerator) (k : ℕ) (w : Name)
    → decode k e.collected_strings ≡ some w
    → decode k (learn_all ss e).collected_strings ≡ some w
unfolding learn_all
decode-learn_all [] e k w h = h
decode-learn_all (s ∷ ss) e k w h =
    decode-learn_all ss (learn s e) k w
      (decode-encode_stable Name-discrete k s.name w e.collected_strings h)

-- The other side after it has told about itself.
abbrev introduced : Enumerator → Enumerator
introduced e =
    (encode_string e.name
      (encode_string e.creator (record e {
        collected_interfaces = collect (summaries e.device.interfaces) e.collected_interfaces;
      })).0).0

abbrev creator_code : Enumerator → ℕ
creator_code e = (encode Name-discrete e.creator e.collected_strings).1

abbrev name_code : Enumerator → ℕ
name_code e = (encode Name-discrete e.name (encode Name-discrete e.creator e.collected_strings).0).1

module _ (client dev : Address) (e : Enumerator) where
  asked_device :
      handle_rx_async 0 client (0x10 ∷ []) e ≡ some (send_device client (own_summary e) e)
  unfolding handle_rx_async
  asked_device = refl

  serve_device : serve client e dev (0x10 ∷ []) ≡ (
    introduced e,
    record {
      from = own_address client dev (introduced e);
      payload =
          0x11 ∷ (length (summaries e.device.interfaces) % 256) ∷ creator_code e ∷ name_code e ∷ [];
    }
        ∷ [],
  )
  unfolding packets robobus.Network.send send_device
  serve_device = serve-some client dev e (introduced e) (0x10 ∷ []) _ asked_device

  -- A device that has not told of its interfaces before answers `Query` with its own description:
  -- its creator, its name, and every interface in its table with port, identifier and name. It
  -- has at most 255 interfaces on distinct ports, and no name is longer than 1020 bytes; the
  -- strings that it has sent before and those of this answer are 256 at most.
  pub exec-query_device :
      e.collected_interfaces ≡ []
      → Nodup (ports e.device.interfaces)
      → length e.device.interfaces ≤ 255
      → length e.collected_strings + 2 + length e.device.interfaces ≤ 256
      → IsShort e.creator
      → IsShort e.name
      → AllShort (summaries e.device.interfaces)
      → (e' : Enumerator) × (exec (serve client) e [] (query_device dev) ≡ some (own_summary e, e'))
  unfolding query_device
  exec-query_device fresh distinct few room creator_short name_short short =
      let ss = summaries e.device.interfaces in
      let all : collect ss e.collected_interfaces ≡ ss =
        rw fresh (collect-summaries e.device.interfaces [] distinct) in
      let size : length ss % 256 ≡ length ss =
        omega (arith, length-summaries e.device.interfaces) in
      let e' = learn_all ss (introduced e) in
      let strings = (encode Name-discrete e.creator e.collected_strings).0 in
      (
        e',
        exec-ask (serve client) e (introduced e) dev (0x10 ∷ []) 0x11 _ _ serve_device refl
            ∙ rw (size) (
                exec-query_interfaces client dev ss [] 0 (introduced e) _ all refl
                  (omega (
                    arith,
                    length-encode Name-discrete e.creator e.collected_strings,
                    length-encode Name-discrete e.name strings,
                    length-summaries e.device.interfaces,
                  ))
                  short
                ∙ exec-serve_str client dev e' (creator_code e) e.creator _
                    (decode-learn_all ss (introduced e) (creator_code e) e.creator (
                      decode-encode_stable Name-discrete (creator_code e) e.name e.creator strings
                        (decode-encode Name-discrete e.creator e.collected_strings (omega arith))))
                    creator_short
                ∙ exec-serve_str client dev e' (name_code e) e.name _
                    (decode-learn_all ss (introduced e) (name_code e) e.name (
                      decode-encode Name-discrete e.name strings
                        (omega (arith, length-encode Name-discrete e.creator e.collected_strings))))
                    name_short
                ∙ unfold exec in refl),
      )
