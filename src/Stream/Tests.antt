-- ===== src/Stream/Tests.antt =====
-- A control stream whose data are numbers, with their own value for a hash, and a timer that counts.
use robobus.Base.{ℕ, ◌-◌, ◌≡◌, refl, ◌⊎◌, arith, List, [], ◌∷◌, leb, length}
use robobus.Stream.{Timer, mix_code}
use robobus.Stream.Inbound.{Inbound, new_inbound}
use robobus.Stream.Outbound.{Outbound, outbound_ok, new_outbound, set_data, set_state_feedback}
use robobus.Stream.Control.{ControlStream, Event, tx_ctrl, tx_data, tx_ok, control_data, new_stream}
use robobus.Stream.Copies.{Copy, datum_again, code_again, pause, progress_all, taken}
use robobus.Stream.Phases.{receive_all, InPhase}
use robobus.Stream.Once.{receive_all-once}
use robobus.Stream.Sender.{Turn, confirmed, passed}
use robobus.Stream.Session.{
  new-IsReady, receive_session, receive_session-data, IsConfirmable, datum-lost,
}
use robobus.Stream.Can.{Config, sent_frames}
use robobus.Stream.Wiring.{AreCrossed, receive_frames, pass_on, receive_frames-sent}
use robobus.Stream.Exchange.{informed, informed_back}

abbrev counter : Timer ℕ
counter = record { timeout = 10; at_once = 0; minus = λ a b. a - b; is_over = λ a. leb a 0 }

abbrev own : ℕ → ℕ
own d = d

abbrev fresh_inbound : Inbound ℕ ℕ
fresh_inbound = new_inbound counter own 0

abbrev fresh_stream : ControlStream ℕ ℕ
fresh_stream = new_stream counter own 0

abbrev arrivals : List (Copy ℕ)
arrivals = datum_again ∷ pause 3 ∷ code_again ∷ datum_again ∷ datum_again ∷ []

abbrev got : Inbound ℕ ℕ × List ℕ
got = receive_all counter own 0 5 5 arrivals fresh_inbound

mix_run : mix_code 5 0 ≡ 5
unfolding mix_code
mix_run = refl

receive_all-once_example :
    ((got.1 ≡ []) ⊎ (got.1 ≡ 5 ∷ []))
    × (progress_all arrivals 0 ≡ 2 → (got.1 ≡ 5 ∷ []) × InPhase counter own 0 5 5 taken got.0)
unfolding mix_code
receive_all-once_example =
    receive_all-once counter own 0 5 5 refl (omega arith) arrivals fresh_inbound
      (refl, refl, λ e. cc)

confirmable : IsConfirmable counter own 0 ((5, arrivals) ∷ (9, arrivals) ∷ [])
unfolding mix_code progress_all
confirmable = (omega arith, refl, (omega arith, refl, tt))

receive_session-data_example :
    (receive_session counter own 0 ((5, arrivals) ∷ (9, arrivals) ∷ []) fresh_inbound).1
    ≡ 5 ∷ 9 ∷ []
receive_session-data_example =
    receive_session-data counter own 0 ((5, arrivals) ∷ (9, arrivals) ∷ []) fresh_inbound
      (new-IsReady counter own 0) confirmable

datum-lost_example :
    ((receive_all counter own 0 0 0 arrivals fresh_inbound).1 ≡ [])
    × ((set_state_feedback counter own 0 (set_data counter own 0 (new_outbound counter own)).0).1
        ≡ outbound_ok ∷ [])
unfolding mix_code
datum-lost_example =
    datum-lost counter own 0 0 arrivals fresh_inbound (new_outbound counter own)
      (new-IsReady counter own 0) refl refl

abbrev turns : List (Turn ℕ)
turns = passed 4 ∷ confirmed 3 ∷ passed 11 ∷ confirmed 5 ∷ passed 20 ∷ []

abbrev five_sent : Outbound ℕ ℕ
five_sent = (set_data counter own 5 (new_outbound counter own)).0

abbrev there : ControlStream ℕ ℕ × List (Event ℕ)
there = informed counter own 0 5 fresh_stream fresh_stream

abbrev back : ControlStream ℕ ℕ × List (Event ℕ)
back = informed_back counter own 0 5 fresh_stream fresh_stream

abbrev sum_code : List ℕ → ℕ
sum_code d = length d

abbrev left_side : Config
left_side = record {
  tx_ctrl_msg_id = 1;
  rx_ctrl_msg_id = 2;
  tx_data_msg_id = 3;
  rx_data_msg_id = 4;
}

abbrev right_side : Config
right_side = record {
  tx_ctrl_msg_id = 2;
  rx_ctrl_msg_id = 1;
  tx_data_msg_id = 4;
  rx_data_msg_id = 3;
}

abbrev text_stream : ControlStream ℕ (List ℕ)
text_stream = new_stream counter sum_code []

abbrev text_events : List (Event (List ℕ))
text_events = tx_data (7 ∷ 8 ∷ []) ∷ tx_ctrl (control_data 2 0) ∷ tx_ok ∷ []

sides-AreCrossed : AreCrossed counter sum_code left_side right_side
sides-AreCrossed = record { ctrl = refl; datum = refl; apart = omega arith }

receive_frames-sent_example :
    receive_frames counter sum_code right_side (sent_frames left_side text_events) text_stream
    ≡ pass_on counter sum_code text_events text_stream
receive_frames-sent_example =
    receive_frames-sent counter sum_code left_side right_side text_events text_stream
      sides-AreCrossed
