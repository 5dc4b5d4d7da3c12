-- ===== src/Stream/Inbound.antt =====
-- `ControlStream_Inbound` of lib/bus/include/robobus/network/cstream.hpp.
use robobus.Base.{ℕ, Bool, true, false, not, some, List, [], ◌∷◌, ◌++◌, ◌==◌, if◌then◌else◌}
use robobus.Stream.{mix_code, Timer, MultiUpdatable, notify, new_updatable, update, tick, value}

pub record Inbound (F D : Type 0) : Type 0 where
  pub previous_state_v : ℕ
  pub calculated_state : ℕ
  pub is_ok_value : Bool
  pub has_new_data : Bool
  pub datum : D
  pub state_validate : ℕ
  pub state_feedback : MultiUpdatable F ℕ

-- `state_feedback.updated`, `data_signal_` and `is_ok_signal_`
pub data InboundEvent (D : Type 0) : Type 0 where
  feedback_updated : ℕ → InboundEvent D
  delivered : D → InboundEvent D
  inbound_ok : InboundEvent D

module _ {F D : Type 0} (t : Timer F) (crc : D → ℕ) where
  abbrev pub new_inbound : D → Inbound F D
  new_inbound datum = record {
    previous_state_v = 0;
    calculated_state = 0;
    is_ok_value = false;
    has_new_data = false;
    datum = datum;
    state_validate = 0;
    state_feedback = new_updatable t (some 0);
  }

  unfoldable pub check_integrity : Inbound F D → Inbound F D × List (InboundEvent D)
  check_integrity c =
      if c.is_ok_value
      then (c, [])
      else if not c.has_new_data
      then (c, [])
      else if value c.state_feedback == c.calculated_state
      then (c, [])
      else if not (c.state_validate == c.calculated_state)
      then (c, [])
      else (let (feedback, fired) =
            update t (record c.state_feedback { content = some c.calculated_state }) in
          (
            record c { state_feedback = feedback; is_ok_value = true; has_new_data = false },
            notify feedback_updated fired ++ delivered c.datum ∷ inbound_ok ∷ [],
          ))

  unfoldable pub feed_data : D → Inbound F D → Inbound F D × List (InboundEvent D)
  feed_data d c = check_integrity (record c {
    has_new_data = true;
    is_ok_value = false;
    datum = d;
    calculated_state = mix_code (crc d) c.previous_state_v;
  })

  unfoldable pub set_state_validate : ℕ → Inbound F D → Inbound F D × List (InboundEvent D)
  set_state_validate state c =
      if state == c.state_validate
      then (c, [])
      else check_integrity (record c {
        is_ok_value = false;
        previous_state_v = c.state_validate;
        state_validate = state;
      })

  unfoldable pub tick_inbound : F → Inbound F D → Inbound F D × List (InboundEvent D)
  tick_inbound delta c =
      let (feedback, fired) = tick t delta c.state_feedback in
      (record c { state_feedback = feedback }, notify feedback_updated fired)
