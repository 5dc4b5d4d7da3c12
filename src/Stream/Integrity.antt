-- ===== src/Stream/Integrity.antt =====
-- The branches of `CheckIntegrity` on the receiving side, in lib/bus/include/robobus/network/cstream.hpp.
use robobus.Base.{
  ℕ, ◌≡◌, ◌≢◌, refl, inl, inr, true, false, some, List, [], ◌∷◌, ◌==◌, Bool-cases, ==-refl, ==-ne,
}
use robobus.Stream.{Timer, update, value}
use robobus.Stream.Inbound.{
  Inbound, InboundEvent, feedback_updated, delivered, inbound_ok, check_integrity,
}

module _ {F D : Type 0} (t : Timer F) (crc : D → ℕ) where
  abbrev pub accepted : Inbound F D → Inbound F D
  accepted c = record c {
    state_feedback = (update t (record c.state_feedback { content = some c.calculated_state })).0;
    is_ok_value = true;
    has_new_data = false;
  }

  abbrev pub acceptance : Inbound F D → List (InboundEvent D)
  acceptance c = feedback_updated c.calculated_state ∷ delivered c.datum ∷ inbound_ok ∷ []

  pub check-same :
      (c : Inbound F D)
      → value c.state_feedback ≡ c.calculated_state
      → check_integrity t crc c ≡ (c, [])
  unfolding check_integrity
  check-same c h = elim (Bool-cases c.is_ok_value) [
    | inl ok ↦ rw ok refl
    | inr open_ ↦ elim (Bool-cases c.has_new_data) [
      | inl new ↦ rw (open_, new, h, ==-refl c.calculated_state) refl
      | inr old ↦ rw (open_, old) refl
    ]
  ]

  pub check-old : (c : Inbound F D) → c.has_new_data ≡ false → check_integrity t crc c ≡ (c, [])
  unfolding check_integrity
  check-old c h = elim (Bool-cases c.is_ok_value) [
    | inl ok ↦ rw ok refl
    | inr open_ ↦ rw (open_, h) refl
  ]

  pub check-wrong :
      (c : Inbound F D) → c.state_validate ≢ c.calculated_state → check_integrity t crc c ≡ (c, [])
  unfolding check_integrity
  check-wrong c h = elim (Bool-cases c.is_ok_value) [
    | inl ok ↦ rw ok refl
    | inr open_ ↦ elim (Bool-cases c.has_new_data) [
      | inl new ↦ elim (Bool-cases (value c.state_feedback == c.calculated_state)) [
        | inl same ↦ rw (open_, new, same) refl
        | inr other ↦ rw (open_, new, other, ==-ne _ _ h) refl
      ]
      | inr old ↦ rw (open_, old) refl
    ]
  ]

  pub check-accept :
      (c : Inbound F D)
      → c.is_ok_value ≡ false
      → c.has_new_data ≡ true
      → value c.state_feedback ≢ c.calculated_state
      → c.state_validate ≡ c.calculated_state
      → check_integrity t crc c ≡ (accepted c, acceptance c)
  unfolding check_integrity
  check-accept c open_ new other right =
      rw (open_, new, ==-ne _ _ other, right, ==-refl c.calculated_state) refl
