-- ===== src/Enumerate/Description.antt =====
-- The other side of the queries: its handlers, as the peer of a coroutine's run, in lib/bus/include/
-- robobus/network/interface/enumerate_interface.hpp.
use robobus.Base.{ℕ, ◌≤◌, ◌≡◌, refl, ◌∙◌, Option, none, some, List, [], ◌∷◌, length}
use robobus.Wire.{Address, get_source}
use robobus.Network.{Frame}
use robobus.Enumerate.Encoder.{decode}
use robobus.Enumerate.State.{Name, Enumerator, Action, transmit, device_found, resume}
use robobus.Enumerate.Server.{reply, string_message, send_string, handle_rx_async}
use robobus.Enumerate.Coroutine.{Packet, Coroutine, ◌>>=◌, exec}
use robobus.Enumerate.Client.{query_str}
use robobus.Enumerate.Transfer.{exec-query_str, AnswersString}

-- The frames among what a handler did, as the other side gets them.
unfoldable pub packets : List Action → List Packet
packets [] = []
packets (transmit f ∷ rest) = record { from = get_source f.id; payload = f.payload } ∷ packets rest
packets (device_found a ∷ rest) = packets rest
packets (resume a ∷ rest) = packets rest

unfoldable pub delivered : Enumerator → Option (Enumerator × List Action) → Enumerator × List Packet
delivered e none = (e, [])
delivered e (some (e', actions)) = (e', packets actions)

-- The other side, for the questions that `client` asks.
unfoldable pub serve : Address → Enumerator → Address → List ℕ → Enumerator × List Packet
unfolding delivered packets
serve client e dev question = delivered e (handle_rx_async 0 client question e)

module _ (client dev : Address) where
  abbrev pub own_address : Enumerator → Address
  own_address e = get_source (robobus.Network.send e.device e.tx client []).id

  pub serve-some :
      (e e' : Enumerator) (question : List ℕ) (actions : List Action)
      → handle_rx_async 0 client question e ≡ some (e', actions)
      → serve client e dev question ≡ (e', packets actions)
  unfolding serve
  serve-some e e' question actions h = rw (h, delivered) refl

  asked_string :
      (e : Enumerator) (id index : ℕ)
      → handle_rx_async 0 client (0x14 ∷ id ∷ index ∷ []) e
        ≡ some (e, send_string client id index e)
  unfolding handle_rx_async
  asked_string e id index = refl

  send_string-some :
      (e : Enumerator) (id index : ℕ) (str : Name)
      → decode id e.collected_strings ≡ some str
      → send_string client id index e ≡ reply e client (string_message id index str) ∷ []
  unfolding send_string
  send_string-some e id index str here = rw (here, send_string) refl

  serve-AnswersString :
      (e : Enumerator) (id : ℕ) (str : Name)
      → decode id e.collected_strings ≡ some str
      → AnswersString (serve client) e dev (own_address e) id str
  unfolding packets robobus.Network.send
  serve-AnswersString e id str here index =
      serve-some e e (0x14 ∷ id ∷ index ∷ []) (reply e client (string_message id index str) ∷ [])
        (asked_string e id index ∙ rw (send_string-some e id index str here) refl)

  -- A string that the other side has collected.
  pub exec-serve_str :
      {A : Type 0} (e : Enumerator) (id : ℕ) (str : Name) (k : Name → Coroutine A)
      → decode id e.collected_strings ≡ some str
      → length str ≤ 1020
      → exec (serve client) e [] (query_str dev id >>= k) ≡ exec (serve client) e [] (k str)
  exec-serve_str e id str k here small =
      exec-query_str (serve client) e dev (own_address e) id str k
        (serve-AnswersString e id str here) small
