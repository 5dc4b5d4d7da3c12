-- ===== src/Stream/Outbound.antt =====
-- `ControlStream_Outbound` of lib/bus/include/robobus/network/cstream.hpp.
use robobus.Base.{ℕ, Bool, true, false, not, none, some, List, [], ◌∷◌, ◌++◌, ◌==◌, if◌then◌else◌}
use robobus.Stream.{
  mix_code, Timer, MultiUpdatable, notify, new_updatable, update, tick, reset, value,
}

pub record Outbound (F D : Type 0) : Type 0 where
  pub is_ok_value : Bool
  pub state_feedback : ℕ
  pub datum : MultiUpdatable F D
  pub state_validate : MultiUpdatable F ℕ

-- `data_.updated`, `state_validate_.updated` and `is_ok_signal_`
pub data OutboundEvent (D : Type 0) : Type 0 where
  data_updated : D → OutboundEvent D
  validate_updated : ℕ → OutboundEvent D
  outbound_ok : OutboundEvent D

module _ {F D : Type 0} (t : Timer F) (crc : D → ℕ) where
  abbrev pub new_outbound : Outbound F D
  new_outbound = record {
    is_ok_value = false;
    state_feedback = 0;
    datum = new_updatable t none;
    state_validate = new_updatable t (some 0);
  }

  unfoldable pub check_integrity : Outbound F D → Outbound F D × List (OutboundEvent D)
  check_integrity o = if o.is_ok_value then (o, []) else elim o.state_validate.content [
    | none ↦ (o, [])
    | some validate ↦
        if not (validate == o.state_feedback)
        then (o, [])
        else (record o { datum = reset o.datum; is_ok_value = true }, outbound_ok ∷ [])
  ]

  unfoldable pub set_data : D → Outbound F D → Outbound F D × List (OutboundEvent D)
  set_data d o =
      let (datum, data_fired) = update t (record o.datum { content = some d }) in
      let mixed = mix_code (crc d) (value o.state_validate) in
      let (validate, validate_fired) =
        update t (record o.state_validate { content = some mixed }) in
      (
        record o { is_ok_value = false; datum = datum; state_validate = validate },
        notify data_updated data_fired ++ notify validate_updated validate_fired,
      )

  unfoldable pub set_state_feedback : ℕ → Outbound F D → Outbound F D × List (OutboundEvent D)
  set_state_feedback state o =
      check_integrity (record o { is_ok_value = false; state_feedback = state })

  unfoldable pub tick_outbound : F → Outbound F D → Outbound F D × List (OutboundEvent D)
  tick_outbound delta o =
      let (datum, data_fired) = tick t delta o.datum in
      let (validate, validate_fired) = tick t delta o.state_validate in
      (
        record o { datum = datum; state_validate = validate },
        notify data_updated data_fired ++ notify validate_updated validate_fired,
      )
