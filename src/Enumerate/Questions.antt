-- ===== src/Enumerate/Questions.antt =====
-- What the queries of lib/bus/include/robobus/network/interface/enumerate_interface.hpp send.
use robobus.Base.{
  ℕ, zero, suc, ◌+◌, ◌*◌, ◌/◌, ◌%◌, ◌≡◌, refl, Option, none, some, List, [], ◌∷◌, ◌++◌, get_elem?,
  drop, replicate,
}
use robobus.Wire.{Address}
use robobus.Enumerate.State.{Name, InterfaceSummary}
use robobus.Enumerate.Coroutine.{Packet, Coroutine, ret, send, await, fault, ◌>>=◌, checked}
use robobus.Enumerate.Client.{
  read_length, write_bytes, query_chunks, query_str, query_interface, query_interfaces,
  query_device,
}

-- What the queries ask.
pub data Question : Type 0 where
  device : Question
  interface : ℕ → Question
  string : ℕ → ℕ → Question

abbrev pub bytes_of : Question → List ℕ
bytes_of device = 0x10 ∷ []
bytes_of (interface index) = 0x12 ∷ index ∷ []
bytes_of (string id index) = 0x14 ∷ id ∷ index ∷ []

-- A coroutine that sends questions only, and only to `dev`.
abbrev pub AsksOnly : {A : Type 0} → Address → Coroutine A → Type 0
AsksOnly dev (ret a) = Unit
AsksOnly dev (send dest payload k) =
    (dest ≡ dev) × ((q : Question) × (payload ≡ bytes_of q)) × AsksOnly dev k
AsksOnly dev (await op k) = (p : Packet) → AsksOnly dev (k p)
AsksOnly dev fault = Unit

module _ (dev : Address) where
  AsksOnly->>= :
      {A B : Type 0} (m : Coroutine A) (f : A → Coroutine B)
      → AsksOnly dev m
      → ((a : A) → AsksOnly dev (f a))
      → AsksOnly dev (m >>= f)
  AsksOnly->>= (ret a) f h k = k a
  AsksOnly->>= (send dest payload m) f (here, is, h) k = (here, is, AsksOnly->>= m f h k)
  AsksOnly->>= (await op m) f h k = λ p. AsksOnly->>= (m p) f (h p) k
  AsksOnly->>= fault f h k = tt

  checked-AsksOnly :
      {A B : Type 0} (o : Option A) (f : A → Coroutine B)
      → ((a : A) → AsksOnly dev (f a))
      → AsksOnly dev (checked o >>= f)
  checked-AsksOnly none f k = tt
  checked-AsksOnly (some a) f k = k a

  query_chunks-AsksOnly :
      (str rounds i : ℕ) (s : Name) → AsksOnly dev (query_chunks dev str rounds i s)
  unfolding query_chunks
  query_chunks-AsksOnly str zero i s = tt
  query_chunks-AsksOnly str (suc rounds) i s = (
    refl,
    (string str ((i + 1) % 256), refl),
    λ p.
        checked-AsksOnly (write_bytes (i * 4) (drop 3 p.payload) s) _
          (λ s'. query_chunks-AsksOnly str rounds (i + 1) s'),
  )

  query_str-AsksOnly : (str : ℕ) → AsksOnly dev (query_str dev str)
  unfolding query_str
  query_str-AsksOnly str = (
    refl,
    (string str 0, refl),
    λ p.
        checked-AsksOnly (read_length (drop 3 p.payload)) _
          (λ len. query_chunks-AsksOnly str ((len + 3) / 4) 0 (replicate len b'#')),
  )

  query_interface-AsksOnly : (index : ℕ) → AsksOnly dev (query_interface dev index)
  unfolding query_interface
  query_interface-AsksOnly index = (
    refl,
    (interface index, refl),
    λ p. checked-AsksOnly (get_elem? p.payload 4) _ (λ code.
        AsksOnly->>= (query_str dev code) _ (query_str-AsksOnly code) (λ name.
          checked-AsksOnly (get_elem? p.payload 2) _
            (λ port. checked-AsksOnly (get_elem? p.payload 3) _ (λ id. tt)))),
  )

  query_interfaces-AsksOnly :
      (rounds index : ℕ) (ss : List InterfaceSummary)
      → AsksOnly dev (query_interfaces dev rounds index ss)
  unfolding query_interfaces
  query_interfaces-AsksOnly zero index ss = tt
  query_interfaces-AsksOnly (suc rounds) index ss =
      AsksOnly->>= (query_interface dev index) _ (query_interface-AsksOnly index)
        (λ s. query_interfaces-AsksOnly rounds (index + 1) (ss ++ s ∷ []))

  -- `QueryDevice` asks nobody but the device, and nothing but its own questions.
  pub query_device-AsksOnly : AsksOnly dev (query_device dev)
  unfolding query_device
  query_device-AsksOnly = (
    refl,
    (device, refl),
    λ p. checked-AsksOnly (get_elem? p.payload 1) _ (λ n.
        AsksOnly->>= (query_interfaces dev n 0 []) _ (query_interfaces-AsksOnly n 0 []) (λ ss.
          checked-AsksOnly (get_elem? p.payload 2) _ (λ creator_code.
            AsksOnly->>= (query_str dev creator_code) _ (query_str-AsksOnly creator_code)
              (λ creator. checked-AsksOnly (get_elem? p.payload 3) _ (λ name_code.
                AsksOnly->>= (query_str dev name_code) _ (query_str-AsksOnly name_code)
                  (λ name. tt)))))),
  )
