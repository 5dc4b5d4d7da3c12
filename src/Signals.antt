-- ===== src/Signals.antt =====
-- `Signal`, `SignalTx` and `SignalRx` of lib/runtime/include/robobus/internal/signal.hpp. A shared
-- pointer to a signal is its address in a store that counts the owners; the pointer that a `SignalRx`
-- keeps is weak, and is not counted. A slot is a value of any type, and to call it is left to the
-- caller, in the order of the list.
pub mod Slots
mod Tests
use robobus.Base.{
  ℕ, suc, ◌+◌, ◌-◌, Bool, true, false, Option, none, some, List, [], ◌∷◌, ◌++◌, ◌==◌, ltb,
  if◌then◌else◌,
}

pub record Signal (S : Type 0) : Type 0 where
  pub owners : ℕ
  pub slots : List S

-- A signal without owners is gone. Addresses from `next` on were never given out.
pub record Store (S : Type 0) : Type 0 where
  pub next : ℕ
  pub signal : ℕ → Signal S

module _ {S : Type 0} where
  abbrev pub write : ℕ → Signal S → Store S → Store S
  write a v m = record m { signal = λ b. if b == a then v else m.signal b }

  abbrev pub no_signals : Store S
  no_signals = record { next = 0; signal = λ a. record { owners = 0; slots = [] } }

  -- `std::make_shared<Signal<T>>()`, owned by the `SignalTx` that is made with it.
  unfoldable pub make_signal : Store S → Store S × ℕ
  make_signal m =
      (record (write m.next (record { owners = 1; slots = [] }) m) { next = suc m.next }, m.next)

  unfoldable pub alive : ℕ → Store S → Bool
  alive a m = ltb 0 (m.signal a).owners

  -- A copy of a `SignalTx`, and its end.
  unfoldable pub copy_tx : ℕ → Store S → Store S
  copy_tx a m = write a (record (m.signal a) { owners = (m.signal a).owners + 1 }) m

  unfoldable pub drop_tx : ℕ → Store S → Store S
  drop_tx a m =
      let left = (m.signal a).owners - 1 in
      write a (record { owners = left; slots = if ltb 0 left then (m.signal a).slots else [] }) m

  -- `Signal::Connect`
  unfoldable pub add_slot : ℕ → S → Store S → Store S
  add_slot a slot m = write a (record (m.signal a) { slots = (m.signal a).slots ++ slot ∷ [] }) m

  -- `SignalRx::Connect`
  unfoldable pub connect : ℕ → S → Store S → Store S × Bool
  unfolding alive add_slot
  connect a slot m = if alive a m then (add_slot a slot m, true) else (m, false)

  -- The loop of `Signal::Fire`: the slots that are called, each with the datum.
  unfoldable pub call_all : {T : Type 0} → T → List S → List (S × T)
  call_all datum [] = []
  call_all datum (slot ∷ rest) = (slot, datum) ∷ call_all datum rest

  -- `SignalTx::Fire`; an owner never has a signal that is gone.
  unfoldable pub fire : {T : Type 0} → ℕ → T → Store S → Option (List (S × T))
  unfolding alive call_all
  fire a datum m = if alive a m then some (call_all datum (m.signal a).slots) else none

  -- One call of `SignalRx::Connect` after another, each with what it returns.
  unfoldable pub connect_all : List (ℕ × S) → Store S → Store S × List Bool
  unfolding connect
  connect_all [] m = (m, [])
  connect_all ((a, slot) ∷ rest) m =
      let (m', result) = connect a slot m in
      let (m'', results) = connect_all rest m' in (m'', result ∷ results)
