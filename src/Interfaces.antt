-- ===== src/Interfaces.antt =====
-- The small interfaces of lib/bus/include/robobus/network/interface: irp_interface.hpp and
-- random_name_interface.hpp. The random bytes that `GetName` draws are an argument.
pub mod Commands
pub mod Names
mod Tests
use robobus.Base.{
  ℕ, zero, suc, ◌+◌, ◌%◌, Bool, true, false, Option, none, some, List, [], ◌∷◌, ◌++◌, ◌==◌,
  if◌then◌else◌, ◌>>=◌,
}

-- `IRPInterface`, by its `logsink`: whether the second sink is active, and `none` for a null pointer.
pub record Irp : Type 0 where
  pub sink2_active : Option Bool

-- What the handler of the upper layer is told.
pub data Launch : Type 0 where
  enter_bootloader enter_fast_bootloader : Launch

-- The constructor, and the one that is inherited from `CANTxMixin`, which makes no `logsink`.
abbrev pub new_irp : Irp
new_irp = record { sink2_active = some false }

abbrev pub inherited_irp : Irp
inherited_irp = record { sink2_active = none }

-- `logsink->Sink2Active(active)`; a null pointer is not to be followed.
unfoldable pub switch_sink2 : Bool → Irp → Option Irp
switch_sink2 active irp = irp.sink2_active >>= λ _. some (record irp { sink2_active = some active })

-- `HandleRx`
unfoldable pub handle_rx : List ℕ → Irp → Option (Irp × List Launch)
unfolding switch_sink2
handle_rx [] irp = some (irp, [])
handle_rx (cmd ∷ rest) irp =
    if cmd == 0x00
    then some (irp, enter_bootloader ∷ [])
    else if cmd == 0x01
    then (switch_sink2 false irp >>= λ i. some (i, []))
    else if cmd == 0x02
    then (switch_sink2 true irp >>= λ i. some (i, []))
    else if cmd == 0x03
    then some (irp, enter_fast_bootloader ∷ [])
    else some (irp, [])

unfoldable pub handle_messages : List (List ℕ) → Irp → Option (Irp × List Launch)
handle_messages [] irp = some (irp, [])
handle_messages (payload ∷ rest) irp =
    handle_rx payload irp >>= λ r. handle_messages rest r.0 >>= λ q. some (q.0, r.1 ++ q.1)

-- The loop of `GetName`, for the rounds that are left.
unfoldable pub push_letters : ℕ → (ℕ → ℕ) → List ℕ → List ℕ
push_letters zero random name = name
push_letters (suc rounds) random name =
    push_letters rounds (λ k. random (suc k)) (name ++ (b'A' + random 0 % 26) ∷ [])

-- `GetName` of `RandomNameInterface`: the name that is kept, which is also what it returns.
unfoldable pub get_name : (ℕ → ℕ) → List ℕ → List ℕ
unfolding push_letters
get_name random [] = push_letters 8 random []
get_name random (ch ∷ name) = ch ∷ name
