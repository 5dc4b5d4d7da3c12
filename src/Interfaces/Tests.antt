-- ===== src/Interfaces/Tests.antt =====
-- Commands and a name.
use robobus.Base.{ℕ, ◌≡◌, true, false, some, none, List, [], ◌∷◌}
use robobus.Interfaces.{
  enter_bootloader, enter_fast_bootloader, new_irp, inherited_irp, handle_messages,
}
use robobus.Interfaces.Commands.{switches, launches, handle_messages-state}

abbrev commands : List (List ℕ)
commands = (2 ∷ []) ∷ [] ∷ (0 ∷ 9 ∷ []) ∷ (7 ∷ []) ∷ (3 ∷ []) ∷ []

handle_messages-state_example :
    (handle_messages commands new_irp
      ≡ some (record { sink2_active = some true }, enter_bootloader ∷ enter_fast_bootloader ∷ []))
    × (handle_messages commands inherited_irp ≡ none)
unfolding switches launches
handle_messages-state_example = handle_messages-state commands false
