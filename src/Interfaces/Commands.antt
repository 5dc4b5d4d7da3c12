-- ===== src/Interfaces/Commands.antt =====
-- A series of commands to lib/bus/include/robobus/network/interface/irp_interface.hpp.
use robobus.Base.{
  ℕ, zero, suc, ==-ne, ◌≡◌, refl, Bool, true, false, Option, none, some, ◌>>=◌, ◌++◌, ◌∙◌, List, [],
  ◌∷◌, ◌==◌, if◌then◌else◌, arith,
}
use robobus.Interfaces.{
  Irp, Launch, enter_bootloader, enter_fast_bootloader, handle_rx, handle_messages, inherited_irp,
  switch_sink2,
}

-- The messages that switch the sink, as what they switch it to.
unfoldable pub switches : List (List ℕ) → List Bool
switches [] = []
switches ([] ∷ rest) = switches rest
switches ((cmd ∷ payload) ∷ rest) =
    let others = switches rest in
    if cmd == 1 then false ∷ others else if cmd == 2 then true ∷ others else others

-- The messages that launch something.
unfoldable pub launches : List (List ℕ) → List Launch
launches [] = []
launches ([] ∷ rest) = launches rest
launches ((cmd ∷ payload) ∷ rest) =
    let others = launches rest in
    if cmd == 0
    then enter_bootloader ∷ others
    else if cmd == 3
    then enter_fast_bootloader ∷ others
    else others

abbrev pub last_or : Bool → List Bool → Bool
last_or b [] = b
last_or b (c ∷ rest) = last_or c rest

-- An interface with a log sink, and one without, after any messages.
abbrev pub with_sink : List Bool → List Launch → Bool → Option (Irp × List Launch)
with_sink switched told b = some (record { sink2_active = some (last_or b switched) }, told)

abbrev pub without_sink : List Bool → List Launch → Option (Irp × List Launch)
without_sink [] told = some (inherited_irp, told)
without_sink (b ∷ switched) told = none

tells_nothing : (m : Option (Irp × List Launch)) → (m >>= λ q. some (q.0, [] ++ q.1)) ≡ m
tells_nothing none = refl
tells_nothing (some q) = refl

with_sink-cons :
    (l : Launch) (ms : List (List ℕ)) (irp : Irp) (switched : List Bool) (told : List Launch)
    (b : Bool)
    → handle_messages ms irp ≡ with_sink switched told b
    → (handle_messages ms irp >>= λ q. some (q.0, l ∷ q.1)) ≡ with_sink switched (l ∷ told) b
with_sink-cons l ms irp switched told b e = rw e refl

without_sink-cons :
    (l : Launch) (ms : List (List ℕ)) (irp : Irp) (switched : List Bool) (told : List Launch)
    → handle_messages ms irp ≡ without_sink switched told
    → (handle_messages ms irp >>= λ q. some (q.0, l ∷ q.1)) ≡ without_sink switched (l ∷ told)
without_sink-cons l ms irp [] told e = rw e refl
without_sink-cons l ms irp (b ∷ switched) told e = rw e refl

-- After any messages, the second sink is as the last message that switches it has left it, and as
-- before if there was none; and each message that launches a bootloader has done so, in order. An
-- interface made by the inherited constructor, which has no log sink, does the same as long as no
-- message switches the sink; the first that does follows a null pointer.
pub handle_messages-state :
    (ms : List (List ℕ)) (b : Bool)
    → (handle_messages ms (record { sink2_active = some b })
        ≡ with_sink (switches ms) (launches ms) b)
      × (handle_messages ms inherited_irp ≡ without_sink (switches ms) (launches ms))
unfolding handle_messages switches launches handle_rx switch_sink2
handle_messages-state [] b = (refl, refl)
handle_messages-state ([] ∷ ms) b =
    let (made, bare) = handle_messages-state ms b in
    (tells_nothing _ ∙ made, tells_nothing _ ∙ bare)
handle_messages-state ((zero ∷ payload) ∷ ms) b =
    let (made, bare) = handle_messages-state ms b in
    (
      with_sink-cons enter_bootloader ms _ (switches ms) (launches ms) b made,
      without_sink-cons enter_bootloader ms _ (switches ms) (launches ms) bare,
    )
handle_messages-state ((suc (zero) ∷ payload) ∷ ms) b =
    let (made, _) = handle_messages-state ms false in (rw made refl, refl)
handle_messages-state ((suc (suc (zero)) ∷ payload) ∷ ms) b =
    let (made, _) = handle_messages-state ms true in (rw made refl, refl)
handle_messages-state ((suc (suc (suc (zero))) ∷ payload) ∷ ms) b =
    let (made, bare) = handle_messages-state ms b in
    (
      with_sink-cons enter_fast_bootloader ms _ (switches ms) (launches ms) b made,
      without_sink-cons enter_fast_bootloader ms _ (switches ms) (launches ms) bare,
    )
handle_messages-state ((suc (suc (suc (suc n))) ∷ payload) ∷ ms) b =
    let cmd = suc (suc (suc (suc n))) in
    let (made, bare) = handle_messages-state ms b in
    rw
      (
        ==-ne cmd 0 (omega arith),
        ==-ne cmd 1 (omega arith),
        ==-ne cmd 2 (omega arith),
        ==-ne cmd 3 (omega arith),
      )
      (tells_nothing _ ∙ made, tells_nothing _ ∙ bare)
