-- ===== src/Stream.antt =====
-- The control stream of lib/bus/include/robobus/network/cstream.hpp and cstream_can.hpp, with
-- lib/runtime/include/robobus/internal/multi_updatable.hpp: data is sent again by a timer
-- until its code comes back. A signal that fires is an event in a list, in the order in
-- which they fire. The `float` timer and the hash `RD16` are parameters.
pub mod Inbound
pub mod Outbound
pub mod Control
pub mod Can
pub mod Code
pub mod Integrity
pub mod Copies
pub mod Phases
pub mod Once
pub mod Sender
pub mod Session
pub mod Exchange
pub mod Wiring
pub mod Words
pub mod Width
pub mod Calls
pub mod Short
pub mod Loading
mod CallTests
mod Tests
use robobus.Base.{
  ℕ, ◌+◌, ◌*◌, ◌/◌, ◌%◌, ◌^◌, Bool, true, false, not, Option, none, some, List, [], ◌∷◌, bit_xor,
  if◌then◌else◌,
}

-- `ControlStreamState::MixCode`, on words of 32 bits.
unfoldable pub mix_code : ℕ → ℕ → ℕ
mix_code code state = bit_xor ((state * code + code) % 2 ^ 32) (state / 2 ^ 16)

-- What the timer of `MultiUpdatable` uses of `float`: `kTimeout_s`, 0, `-`, and `<= 0`.
pub record Timer (F : Type 0) : Type 0 where
  pub timeout : F
  pub at_once : F
  pub minus : F → F → F
  pub is_over : F → Bool

-- `MultiUpdatable`
pub record MultiUpdatable (F T : Type 0) : Type 0 where
  pub need_update : Bool
  pub timer : F
  pub content : Option T

-- The events of a signal that fires, if it does.
abbrev pub notify : {T E : Type 0} → (T → E) → Option T → List E
notify event none = []
notify event (some x) = event x ∷ []

module _ {F T : Type 0} (t : Timer F) where
  abbrev pub new_updatable : Option T → MultiUpdatable F T
  new_updatable content = record { need_update = false; timer = t.timeout; content = content }

  -- `Update`, with what `updated` fires.
  abbrev pub update : MultiUpdatable F T → MultiUpdatable F T × Option T
  update m = (record m { need_update = true; timer = t.at_once }, m.content)

  unfoldable pub tick : F → MultiUpdatable F T → MultiUpdatable F T × Option T
  tick delta m =
      let timer = t.minus m.timer delta in
      if not m.need_update
      then (m, none)
      else if t.is_over timer
      then (record m { timer = t.timeout }, m.content)
      else (record m { timer = timer }, none)

abbrev pub reset : {F T : Type 0} → MultiUpdatable F T → MultiUpdatable F T
reset m = record m { need_update = false }

-- `->Get()`. The source reads only contents that are there from the construction on.
abbrev pub value : {F : Type 0} → MultiUpdatable F ℕ → ℕ
value m = elim m.content [ none ↦ 0 | some x ↦ x ]
