-- ===== src/Enumerate/Query.antt =====
-- `QueryInterface` and `QueryDevice` against the handlers of the other side, in lib/bus/include/
-- robobus/network/interface/enumerate_interface.hpp.
use mathlib.Core.List.{append_assoc, append-nil}
use robobus.Base.{
  ℕ, ◌+◌, ◌<◌, ◌≤◌, ◌≡◌, refl, sym, ◌∙◌, arith, some, List, [], ◌∷◌, ◌++◌, length, length-append,
  get_elem?-append_at,
}
use robobus.Wire.{Address}
use robobus.Enumerate.Encoder.{decode, decode-encode, length-encode, decode-get_elem?}
use robobus.Enumerate.State.{Name, Name-discrete, InterfaceSummary, Enumerator}
use robobus.Enumerate.Server.{encode_string, reply, send_interface, handle_rx_async}
use robobus.Enumerate.Coroutine.{Coroutine, ◌>>=◌, exec, >>=_assoc}
use robobus.Enumerate.Client.{query_str, query_interface, query_interfaces}
use robobus.Enumerate.Transfer.{exec-ask}
use robobus.Enumerate.Description.{packets, serve, serve-some, own_address, exec-serve_str}

abbrev pub IsShort : Name → Type 0
IsShort s = length s ≤ 1020

-- The other side after it has sent the name of an interface.
abbrev pub learn : InterfaceSummary → Enumerator → Enumerator
learn intf e = (encode_string intf.name e).0

abbrev pub code_in : Name → Enumerator → ℕ
code_in s e = (encode_string s e).1

module _ (client dev : Address) where
  asked_interface :
      (e : Enumerator) (index : ℕ)
      → handle_rx_async 0 client (0x12 ∷ index ∷ []) e ≡ some (send_interface client index e)
  unfolding handle_rx_async
  asked_interface e index = refl

  send_interface-some :
      (e : Enumerator) (index : ℕ) (intf : InterfaceSummary)
      → decode index e.collected_interfaces ≡ some intf
      → send_interface client index e ≡ (
        learn intf e,
        reply (learn intf e) client (0x13 ∷ index ∷ intf.port ∷ intf.id ∷ code_in intf.name e ∷ [])
            ∷ [],
      )
  unfolding send_interface
  send_interface-some e index intf here = rw (here, send_interface) refl

  serve_interface :
      (e : Enumerator) (index : ℕ) (intf : InterfaceSummary)
      → decode index e.collected_interfaces ≡ some intf
      → serve client e dev (0x12 ∷ index ∷ []) ≡ (
        learn intf e,
        record {
          from = own_address client dev (learn intf e);
          payload = 0x13 ∷ index ∷ intf.port ∷ intf.id ∷ code_in intf.name e ∷ [];
        }
            ∷ [],
      )
  unfolding packets robobus.Network.send
  serve_interface e index intf here =
      serve-some client dev e (learn intf e) (0x12 ∷ index ∷ [])
        (reply (learn intf e) client (0x13 ∷ index ∷ intf.port ∷ intf.id ∷ code_in intf.name e ∷ [])
          ∷ [])
        (asked_interface e index ∙ rw (send_interface-some e index intf here) refl)

  exec-query_interface :
      {A : Type 0} (e : Enumerator) (index : ℕ) (intf : InterfaceSummary)
      (k : InterfaceSummary → Coroutine A)
      → decode index e.collected_interfaces ≡ some intf
      → length e.collected_strings < 256
      → IsShort intf.name
      → exec (serve client) e [] (query_interface dev index >>= k)
        ≡ exec (serve client) (learn intf e) [] (k intf)
  unfolding query_interface
  exec-query_interface e index intf k here room short =
      exec-ask (serve client) e (learn intf e) dev (0x12 ∷ index ∷ []) 0x13 _ _
        (serve_interface e index intf here) refl
      ∙ rw (>>=_assoc (query_str dev (code_in intf.name e))) (
          exec-serve_str client dev (learn intf e) (code_in intf.name e) intf.name _
            (decode-encode Name-discrete intf.name e.collected_strings room) short)

-- The other side after it has sent the names of these interfaces.
unfoldable pub learn_all : List InterfaceSummary → Enumerator → Enumerator
learn_all [] e = e
learn_all (intf ∷ rest) e = learn_all rest (learn intf e)

abbrev pub AllShort : List InterfaceSummary → Type 0
AllShort [] = Unit {0}
AllShort (intf ∷ rest) = IsShort intf.name × AllShort rest

decode-middle :
    (done rest : List InterfaceSummary) (intf : InterfaceSummary)
    → decode (length done) (done ++ intf ∷ rest) ≡ some intf
decode-middle done rest intf =
    decode-get_elem? (length done) (done ++ intf ∷ rest)
    ∙ get_elem?-append_at done rest intf (length done) refl

module _ (client dev : Address) where
  -- The loop over the interfaces, of which those in `done` are there already.
  pub exec-query_interfaces :
      {A : Type 0} (rest done : List InterfaceSummary) (index : ℕ) (e : Enumerator)
      (k : List InterfaceSummary → Coroutine A)
      → e.collected_interfaces ≡ done ++ rest
      → index ≡ length done
      → length e.collected_strings + length rest ≤ 256
      → AllShort rest
      → exec (serve client) e [] (query_interfaces dev (length rest) index done >>= k)
        ≡ exec (serve client) (learn_all rest e) [] (k (done ++ rest))
  unfolding query_interfaces learn_all
  exec-query_interfaces [] done index e k all at room short = rw (append-nil done) refl
  exec-query_interfaces (intf ∷ rest) done index e k all at room short =
      let more = append_assoc done (intf ∷ []) rest in
      rw (>>=_assoc (query_interface dev index)) (
        exec-query_interface client dev e index intf _ (rw (all, at) (decode-middle done rest intf))
          (omega arith) short.0
        ∙ exec-query_interfaces rest (done ++ intf ∷ []) (index + 1) (learn intf e) k
            (all ∙ sym more) (omega (arith, length-append done (intf ∷ [])))
            (omega (arith, length-encode Name-discrete intf.name e.collected_strings)) short.1
        ∙ rw more refl)
