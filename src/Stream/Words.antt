-- ===== src/Stream/Words.antt =====
-- The widths of the codes and of the control data in lib/bus/include/robobus/network/cstream.hpp.
use robobus.Base.{ℕ, ◌≡◌, arith, true, false, ◌==◌, Bool-cases, inl, inr}
use robobus.Stream.{mix_code, Timer, MultiUpdatable, value, tick}
use robobus.Stream.Code.{IsWord, mix_code-IsWord}
use robobus.Stream.Inbound.{
  Inbound, InboundEvent, feedback_updated, delivered, inbound_ok, feed_data, set_state_validate,
  tick_inbound,
}
use robobus.Stream.Outbound.{
  Outbound, OutboundEvent, data_updated, validate_updated, outbound_ok, set_data,
  set_state_feedback, tick_outbound,
}
use robobus.Stream.Control.{ControlStream}

module _ {F D : Type 0} where
  pub record HasWordsIn (c : Inbound F D) : Type 0 where
    pub previous : IsWord c.previous_state_v
    pub calculated : IsWord c.calculated_state
    pub validate : IsWord c.state_validate
    pub feedback : IsWord (value c.state_feedback)

  pub record HasWordsOut (o : Outbound F D) : Type 0 where
    pub feedback : IsWord o.state_feedback
    pub validate : IsWord (value o.state_validate)

  -- The codes of a stream are words of 32 bits.
  pub record HasWords (s : ControlStream F D) : Type 0 where
    pub inbound : HasWordsIn s.inbound
    pub outbound : HasWordsOut s.outbound

  module _ (t : Timer F) (crc : D → ℕ) where
    check_integrity-HasWordsIn :
        (c : Inbound F D)
        → HasWordsIn c
        → HasWordsIn (robobus.Stream.Inbound.check_integrity t crc c).0
    unfolding robobus.Stream.Inbound.check_integrity
    check_integrity-HasWordsIn c h = ground arith

    check_integrity-HasWordsOut :
        (o : Outbound F D)
        → HasWordsOut o
        → HasWordsOut (robobus.Stream.Outbound.check_integrity t crc o).0
    unfolding robobus.Stream.Outbound.check_integrity
    check_integrity-HasWordsOut o h = ground arith

    tick-value : (delta : F) (m : MultiUpdatable F ℕ) → value (tick t delta m).0 ≡ value m
    unfolding tick
    tick-value delta m = ground arith

    pub feed_data-HasWordsIn :
        (d : D) (c : Inbound F D) → HasWordsIn c → HasWordsIn (feed_data t crc d c).0
    unfolding feed_data
    feed_data-HasWordsIn d c h =
        check_integrity-HasWordsIn
          (record c {
            has_new_data = true;
            is_ok_value = false;
            datum = d;
            calculated_state = mix_code (crc d) c.previous_state_v;
          })
          (record {
            previous = h.previous;
            calculated = mix_code-IsWord (crc d) c.previous_state_v h.previous;
            validate = h.validate;
            feedback = h.feedback;
          })

    pub set_state_validate-HasWordsIn :
        (state : ℕ) (c : Inbound F D)
        → IsWord state
        → HasWordsIn c
        → HasWordsIn (set_state_validate t crc state c).0
    unfolding set_state_validate
    set_state_validate-HasWordsIn state c w h = elim (Bool-cases (state == c.state_validate)) [
      | inl same ↦ rw same h
      | inr new ↦ rw new (
          check_integrity-HasWordsIn
            (record c {
              is_ok_value = false;
              previous_state_v = c.state_validate;
              state_validate = state;
            })
            (record {
              previous = h.validate;
              calculated = h.calculated;
              validate = w;
              feedback = h.feedback;
            }))
    ]

    pub tick_inbound-HasWordsIn :
        (delta : F) (c : Inbound F D) → HasWordsIn c → HasWordsIn (tick_inbound t crc delta c).0
    unfolding tick_inbound
    tick_inbound-HasWordsIn delta c h = record {
      previous = h.previous;
      calculated = h.calculated;
      validate = h.validate;
      feedback = omega (arith, tick-value delta c.state_feedback, h.feedback);
    }

    pub set_data-HasWordsOut :
        (d : D) (o : Outbound F D) → HasWordsOut o → HasWordsOut (set_data t crc d o).0
    unfolding set_data
    set_data-HasWordsOut d o h = record {
      feedback = h.feedback;
      validate = mix_code-IsWord (crc d) (value o.state_validate) h.validate;
    }

    pub set_state_feedback-HasWordsOut :
        (state : ℕ) (o : Outbound F D)
        → IsWord state
        → HasWordsOut o
        → HasWordsOut (set_state_feedback t crc state o).0
    unfolding set_state_feedback
    set_state_feedback-HasWordsOut state o w h =
        check_integrity-HasWordsOut (record o { is_ok_value = false; state_feedback = state })
          (record { feedback = w; validate = h.validate })

    pub tick_outbound-HasWordsOut :
        (delta : F) (o : Outbound F D) → HasWordsOut o → HasWordsOut (tick_outbound t crc delta o).0
    unfolding tick_outbound
    tick_outbound-HasWordsOut delta o h = record {
      feedback = h.feedback;
      validate = omega (arith, tick-value delta o.state_validate, h.validate);
    }
