-- ===== src/Stream/Sender.antt =====
-- One datum at the sending half of lib/bus/include/robobus/network/cstream.hpp.
use robobus.Base.{
  ℕ, ◌≡◌, refl, ◌⊎◌, Bool, true, false, some, List, [], ◌∷◌, ◌++◌, ◌==◌, if◌then◌else◌,
}
use robobus.Stream.{mix_code, Timer, value, reset}
use robobus.Stream.Outbound.{
  Outbound, OutboundEvent, data_updated, validate_updated, outbound_ok, check_integrity, set_data,
  set_state_feedback, tick_outbound,
}

-- What happens to the sender while it has no new datum to send.
pub data Turn (F : Type 0) : Type 0 where
  confirmed : ℕ → Turn F
  passed : F → Turn F

-- The data among the events.
unfoldable pub sent : {D : Type 0} → List (OutboundEvent D) → List D
sent [] = []
sent (data_updated d ∷ rest) = d ∷ sent rest
sent (validate_updated v ∷ rest) = sent rest
sent (outbound_ok ∷ rest) = sent rest

-- The codes among the events.
unfoldable pub codes : {D : Type 0} → List (OutboundEvent D) → List ℕ
codes [] = []
codes (data_updated d ∷ rest) = codes rest
codes (validate_updated v ∷ rest) = v ∷ codes rest
codes (outbound_ok ∷ rest) = codes rest

module _ {F D : Type 0} (t : Timer F) (crc : D → ℕ) where
  unfoldable pub take_turn : Turn F → Outbound F D → Outbound F D × List (OutboundEvent D)
  unfolding set_state_feedback tick_outbound
  take_turn (confirmed v) o = set_state_feedback t crc v o
  take_turn (passed delta) o = tick_outbound t crc delta o

  unfoldable pub take_turns : List (Turn F) → Outbound F D → Outbound F D × List (OutboundEvent D)
  take_turns [] o = (o, [])
  take_turns (m ∷ ms) o =
      let (o1, events) = take_turn m o in let (o2, rest) = take_turns ms o1 in (o2, events ++ rest)

  -- The datum `d` with the code `v` is on its way; `open_` says whether it still has to be sent.
  pub record OnItsWay (d : D) (v : ℕ) (open_ : Bool) (o : Outbound F D) : Type 0 where
    pub content : o.datum.content ≡ some d
    pub code : o.state_validate.content ≡ some v
    pub pending : o.datum.need_update ≡ open_
    pub repeats : o.state_validate.need_update ≡ true

  -- `SetData` puts the datum on its way, under the code mixed from the last one, and sends both
  -- at once.
  pub set_data-OnItsWay :
      (d : D) (o : Outbound F D)
      → let v = mix_code (crc d) (value o.state_validate) in
        OnItsWay d v true (set_data t crc d o).0
        × ((set_data t crc d o).1 ≡ data_updated d ∷ validate_updated v ∷ [])
  unfolding set_data
  set_data-OnItsWay d o =
      (record { content = refl; code = refl; pending = refl; repeats = refl }, refl)

  pub feedback-right :
      (d : D) (v x : ℕ) (open_ : Bool) (o : Outbound F D)
      → OnItsWay d v open_ o
      → (v == x) ≡ true
      → set_state_feedback t crc x o ≡ (
        record o { datum = reset o.datum; is_ok_value = true; state_feedback = x },
        outbound_ok ∷ [],
      )
  unfolding set_state_feedback check_integrity
  feedback-right d v x open_ o h e = simp (h.code, e)

  -- One turn: the datum stays, what goes out is the datum, and only if it still has to.
  record Turned (d : D) (v : ℕ) (before after : Bool) (r : Outbound F D × List (OutboundEvent D))
      : Type 0 where
    way : OnItsWay d v after r.0
    output : (sent r.1 ≡ []) ⊎ ((before ≡ true) × (sent r.1 ≡ d ∷ []))
    coded : (codes r.1 ≡ []) ⊎ (codes r.1 ≡ v ∷ [])

  -- Does a turn confirm the code `v`?
  abbrev pub is_confirmation : ℕ → Turn F → Bool
  is_confirmation v (confirmed x) = v == x
  is_confirmation v (passed delta) = false

  abbrev pub still_open : ℕ → List (Turn F) → Bool → Bool
  still_open v [] open_ = open_
  still_open v (m ∷ ms) open_ = still_open v ms (if is_confirmation v m then false else open_)
