-- ===== src/Stream/Phases.antt =====
-- The states of the receiving half of lib/bus/include/robobus/network/cstream.hpp on the way of one
-- datum.
use mathlib.Core.List.{append-nil}
use robobus.Base.{
  ℕ, ◌≤◌, ◌≡◌, ◌≢◌, refl, ap, ◌∙◌, inl, inr, arith, true, false, Option, none, some, List, [], ◌∷◌,
  ◌++◌, ◌==◌, Bool-cases, ==-refl,
}
use robobus.Stream.{mix_code, Timer, MultiUpdatable, value, tick, notify}
use robobus.Stream.Inbound.{
  Inbound, InboundEvent, feedback_updated, feed_data, set_state_validate, tick_inbound,
}
use robobus.Stream.Integrity.{check-same, check-wrong}
use robobus.Stream.Copies.{
  deliveries, Copy, datum_again, code_again, pause, Phase, waiting, offered, taken, rank,
}

module _ {F D : Type 0} (t : Timer F) (crc : D → ℕ) where
  module _ (s v : ℕ) (d : D) where
    -- The receiver has confirmed the code `s`; the code of the datum is `v`.
    abbrev pub InPhase : Phase → Inbound F D → Type 0
    InPhase waiting c =
        (c.state_validate ≡ s)
        × (value c.state_feedback ≡ s)
        × (c.has_new_data ≡ true → c.calculated_state ≢ s → c.datum ≡ d)
    InPhase offered c =
        (c.previous_state_v ≡ s) × (c.state_validate ≡ v) × (value c.state_feedback ≡ s)
    InPhase taken c =
        (c.previous_state_v ≡ s)
        × (c.state_validate ≡ v)
        × (value c.state_feedback ≡ v)
        × (c.has_new_data ≡ true → c.calculated_state ≡ v)

    abbrev pub out : Phase → List D
    out waiting = []
    out offered = []
    out taken = d ∷ []

    unfoldable pub receive : Copy F → Inbound F D → Inbound F D × List (InboundEvent D)
    receive datum_again c = feed_data t crc d c
    receive code_again c = set_state_validate t crc v c
    receive (pause delta) c = tick_inbound t crc delta c

    -- A series of them, with the data that are delivered.
    unfoldable pub receive_all : List (Copy F) → Inbound F D → Inbound F D × List D
    unfolding deliveries
    receive_all [] c = (c, [])
    receive_all (m ∷ ms) c =
        let (c1, events) = receive m c in
        let (c2, rest) = receive_all ms c1 in (c2, deliveries events ++ rest)

    -- What one message does to a phase: it goes on or stays, and delivers the datum on the way to
    -- the last one.
    pub record Step (p : Phase) (least : ℕ) (r : Inbound F D × List (InboundEvent D)) : Type 0 where
      pub next : Phase
      pub in_phase : InPhase next r.0
      pub output : out p ++ deliveries r.1 ≡ out next
      pub forward : least ≤ rank next

    pub goes_on :
        (p q : Phase) (least : ℕ) (c' : Inbound F D) (events : List (InboundEvent D))
        (r : Inbound F D × List (InboundEvent D))
        → r ≡ (c', events)
        → InPhase q c'
        → out p ++ deliveries events ≡ out q
        → least ≤ rank q
        → Step p least r
    goes_on p q least c' events r e h o f =
        rw e (record { next = q; in_phase = h; output = o; forward = f })

    pub stays :
        (p : Phase) (c' : Inbound F D) (r : Inbound F D × List (InboundEvent D))
        → r ≡ (c', [])
        → InPhase p c'
        → Step p (rank p) r
    unfolding deliveries
    stays p c' r e h = goes_on p p (rank p) c' [] r e h (append-nil (out p)) (omega arith)

    abbrev pub fed : Inbound F D → Inbound F D
    fed c = record c {
      has_new_data = true;
      is_ok_value = false;
      datum = d;
      calculated_state = mix_code (crc d) c.previous_state_v;
    }

    abbrev pub coded : Inbound F D → Inbound F D
    coded c = record c {
      is_ok_value = false;
      previous_state_v = c.state_validate;
      state_validate = v;
    }

    deliveries-feedback : (o : Option ℕ) → deliveries {D = D} (notify feedback_updated o) ≡ []
    unfolding deliveries
    deliveries-feedback none = refl
    deliveries-feedback (some x) = refl

    -- Time passes for the confirmation alone.
    tick-content : (delta : F) (m : MultiUpdatable F ℕ) → (tick t delta m).0.content ≡ m.content
    unfolding tick
    tick-content delta m = ground arith

    InPhase-feedback :
        (p : Phase) (c : Inbound F D) (m : MultiUpdatable F ℕ)
        → value m ≡ value c.state_feedback
        → InPhase p c
        → InPhase p (record c { state_feedback = m })
    InPhase-feedback waiting c m e (a, b, h) = (a, e ∙ b, h)
    InPhase-feedback offered c m e (a, b, h) = (a, b, e ∙ h)
    InPhase-feedback taken c m e (a, b, h, k) = (a, b, e ∙ h, k)

    pub receive-pause :
        (p : Phase) (delta : F) (c : Inbound F D)
        → InPhase p c
        → (c' : Inbound F D) × (events : List (InboundEvent D)) × (receive (pause delta) c
            ≡ (c', events))
          × (deliveries events ≡ [])
          × InPhase p c'
    unfolding receive tick_inbound
    receive-pause p delta c h =
        let r = tick t delta c.state_feedback in
        (
          record c { state_feedback = r.0 },
          notify feedback_updated r.1,
          refl,
          deliveries-feedback r.1,
          InPhase-feedback p c r.0
              (ap (λ (o : Option ℕ). elim o [ none ↦ 0 | some x ↦ x ])
                (tick-content delta c.state_feedback))
              h,
        )

    pub step-pause :
        (p : Phase) (delta : F) (c : Inbound F D)
        → InPhase p c
        → Step p (rank p) (receive (pause delta) c)
    step-pause p delta c h =
        let (c', events, e, silent, still) = receive-pause p delta c h in
        goes_on p p (rank p) c' events _ e still (ap (λ l. out p ++ l) silent ∙ append-nil (out p))
          (omega arith)

    -- Before its code, a datum is kept, and not delivered.
    pub receive-datum-waiting :
        (c : Inbound F D) → InPhase waiting c → receive datum_again c ≡ (fed c, [])
    unfolding receive feed_data
    receive-datum-waiting c (validate, feedback, fresh) =
        elim (Bool-cases (s == mix_code (crc d) c.previous_state_v)) [
          | inl same ↦ check-same t crc (fed c) (ground arith)
          | inr other ↦ check-wrong t crc (fed c) (ground arith)
        ]

    pub fed-waiting : (c : Inbound F D) → InPhase waiting c → InPhase waiting (fed c)
    fed-waiting c (validate, feedback, fresh) = (validate, feedback, λ _ _. refl)

    pub set_state_validate-same :
        (c : Inbound F D) → c.state_validate ≡ v → receive code_again c ≡ (c, [])
    unfolding receive set_state_validate
    set_state_validate-same c h = rw (h, ==-refl v) refl
