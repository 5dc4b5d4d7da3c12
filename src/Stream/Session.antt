-- ===== src/Stream/Session.antt =====
-- The data of a whole session at the receiver of lib/bus/include/robobus/network/cstream.hpp.
use robobus.Base.{ℕ, ◌≡◌, ◌≢◌, refl, ap, subst, true, List, [], ◌∷◌, ◌++◌, map, ==-refl}
use robobus.Stream.{mix_code, Timer, value}
use robobus.Stream.Inbound.{Inbound, new_inbound}
use robobus.Stream.Outbound.{Outbound, outbound_ok, set_data, set_state_feedback}
use robobus.Stream.Copies.{
  deliveries, Copy, datum_again, code_again, pause, waiting, taken, progress_all,
}
use robobus.Stream.Phases.{
  InPhase, receive_all, receive-datum-waiting, fed-waiting, set_state_validate-same, receive-pause,
}
use robobus.Stream.Once.{receive_all-once}
use robobus.Stream.Sender.{OnItsWay, set_data-OnItsWay, feedback-right}

module _ {F D : Type 0} (t : Timer F) (crc : D → ℕ) where
  -- The receiver has confirmed the code `s`, and nothing new is in its hands.
  pub record IsReady (s : ℕ) (c : Inbound F D) : Type 0 where
    pub validate : c.state_validate ≡ s
    pub feedback : value c.state_feedback ≡ s
    pub settled : c.has_new_data ≡ true → c.calculated_state ≡ s

  pub new-IsReady : (d : D) → IsReady 0 (new_inbound t crc d)
  new-IsReady d = record { validate = refl; feedback = refl; settled = λ h. refl }

  pub waiting-InPhase :
      (s v : ℕ) (d : D) (c : Inbound F D) → IsReady s c → InPhase t crc s v d waiting c
  waiting-InPhase s v d c h = (h.validate, h.feedback, λ new other. absurd (other (h.settled new)))

  taken-IsReady : (s v : ℕ) (d : D) (c : Inbound F D) → InPhase t crc s v d taken c → IsReady v c
  taken-IsReady s v d c (_, validate, feedback, settled) = record {
    validate = validate;
    feedback = feedback;
    settled = settled;
  }

  -- One datum after another, each with the copies of it and of its code that come in.
  unfoldable pub receive_session : ℕ → List (D × List (Copy F)) → Inbound F D → Inbound F D × List D
  receive_session s [] c = (c, [])
  receive_session s ((d, ms) ∷ rest) c =
      let v = mix_code (crc d) s in
      let (c1, got) = receive_all t crc s v d ms c in
      let (c2, more) = receive_session v rest c1 in (c2, got ++ more)

  -- Each datum changes the code, and comes in once more after its code has.
  abbrev pub IsConfirmable : ℕ → List (D × List (Copy F)) → Type 0
  IsConfirmable s [] = Unit {0}
  IsConfirmable s ((d, ms) ∷ rest) =
      (mix_code (crc d) s ≢ s) × (progress_all ms 0 ≡ 2) × IsConfirmable (mix_code (crc d) s) rest

  -- The receiver delivers the data of a session in their order, each of them once, however often
  -- each datum and its code come in. It starts ready, each datum changes the code, and each comes
  -- in at least once after its code has.
  pub receive_session-data :
      (s : ℕ) (rounds : List (D × List (Copy F))) (c : Inbound F D)
      → IsReady s c
      → IsConfirmable s rounds
      → (receive_session s rounds c).1 ≡ map (λ r. r.0) rounds
  unfolding receive_session
  receive_session-data s [] c h k = refl
  receive_session-data s ((d, ms) ∷ rest) c h (changes, through, later) =
      let v = mix_code (crc d) s in
      let (_, done) = receive_all-once t crc s v d refl changes ms c (waiting-InPhase s v d c h) in
      let (got, phase) = done through in
      rw got (
        ap (λ l. d ∷ l)
          (receive_session-data v rest (receive_all t crc s v d ms c).0
            (taken-IsReady s v d (receive_all t crc s v d ms c).0 phase) later))

  quiet :
      (s : ℕ) (d : D) (ms : List (Copy F)) (c : Inbound F D)
      → InPhase t crc s s d waiting c
      → (receive_all t crc s s d ms c).1 ≡ []
  unfolding receive_all
  quiet s d [] c h = refl
  quiet s d (datum_again ∷ ms) c h =
      rw (receive-datum-waiting t crc s s d c h)
        (unfold deliveries in quiet s d ms _ (fed-waiting t crc s s d c h))
  quiet s d (code_again ∷ ms) c h =
      rw (set_state_validate-same t crc s s d c h.0) (unfold deliveries in quiet s d ms c h)
  quiet s d (pause delta ∷ ms) c h =
      let (c', events, e, silent, still) = receive-pause t crc s s d waiting delta c h in
      rw (e, silent) (quiet s d ms c' still)

  -- The sender and the receiver, when a datum does not change the code `s` on which both agree:
  -- the receiver delivers nothing, whatever copies of it and of its code come in, yet the sender
  -- reports success as soon as the receiver confirms `s` again.
  pub datum-lost :
      (s : ℕ) (d : D) (ms : List (Copy F)) (c : Inbound F D) (o : Outbound F D)
      → IsReady s c
      → value o.state_validate ≡ s
      → mix_code (crc d) s ≡ s
      → ((receive_all t crc s s d ms c).1 ≡ [])
        × ((set_state_feedback t crc s (set_data t crc d o).0).1 ≡ outbound_ok ∷ [])
  datum-lost s d ms c o h agree same = (
    quiet s d ms c (waiting-InPhase s s d c h),
    ap (λ r. r.1)
        (feedback-right t crc d s s true (set_data t crc d o).0
          (subst (λ x. OnItsWay t crc d x true (set_data t crc d o).0) (rw agree same)
            (set_data-OnItsWay t crc d o).0)
          (==-refl s)),
  )
