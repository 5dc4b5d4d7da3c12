-- ===== src/Stream/Once.antt =====
-- One datum at the receiving half of lib/bus/include/robobus/network/cstream.hpp, with copies of it and
-- of its code in any order.
use mathlib.Core.List.{append_assoc, append-nil}
use robobus.Base.{
  ℕ, ◌≤◌, ◌≡◌, ◌≢◌, refl, sym, ap, ◌∙◌, ◌⊎◌, inl, inr, arith, List, [], ◌∷◌, ◌++◌, ◌==◌, Bool-cases,
  ==-ne, ==_iff,
}
use robobus.Stream.{mix_code, Timer}
use robobus.Stream.Inbound.{Inbound, check_integrity, feed_data, set_state_validate}
use robobus.Stream.Integrity.{
  accepted, acceptance, check-same, check-old, check-wrong, check-accept,
}
use robobus.Stream.Copies.{
  deliveries, Copy, datum_again, code_again, pause, Phase, waiting, offered, taken, rank, progress,
  progress_all, progress_all_mono,
}
use robobus.Stream.Phases.{
  InPhase, out, receive, receive_all, Step, goes_on, stays, fed, coded, step-pause,
  receive-datum-waiting, fed-waiting, set_state_validate-same,
}

module _ {F D : Type 0} (t : Timer F) (crc : D → ℕ) (s v : ℕ) (d : D) where
  module _ (code : v ≡ mix_code (crc d) s) (changes : v ≢ s) where
    step-datum-waiting :
        (c : Inbound F D)
        → InPhase t crc s v d waiting c
        → Step t crc s v d waiting 0 (receive t crc s v d datum_again c)
    step-datum-waiting c h =
        stays t crc s v d waiting (fed t crc s v d c) _ (receive-datum-waiting t crc s v d c h)
          (fed-waiting t crc s v d c h)

    step-datum-offered :
        (c : Inbound F D)
        → InPhase t crc s v d offered c
        → Step t crc s v d offered 2 (receive t crc s v d datum_again c)
    unfolding receive feed_data
    step-datum-offered c (previous, validate, feedback) =
        let now : mix_code (crc d) c.previous_state_v ≡ v = rw previous (sym code) in
        goes_on t crc s v d offered taken 2 (accepted t crc (fed t crc s v d c))
          (acceptance t crc (fed t crc s v d c)) _
          (check-accept t crc (fed t crc s v d c) refl refl
            (λ e. changes (sym now ∙ sym e ∙ feedback)) (validate ∙ sym now))
          (previous, validate, now, λ e. cc) (unfold deliveries in refl) (omega arith)

    step-datum-taken :
        (c : Inbound F D)
        → InPhase t crc s v d taken c
        → Step t crc s v d taken 2 (receive t crc s v d datum_again c)
    unfolding receive feed_data
    step-datum-taken c (previous, validate, feedback, _) =
        let now : mix_code (crc d) c.previous_state_v ≡ v = rw previous (sym code) in
        stays t crc s v d taken (fed t crc s v d c) _
          (check-same t crc (fed t crc s v d c) (feedback ∙ sym now))
          (previous, validate, feedback, λ _. now)

    set_state_validate-new :
        (c : Inbound F D)
        → v ≢ c.state_validate
        → receive t crc s v d code_again c ≡ check_integrity t crc (coded t crc s v d c)
    unfolding receive set_state_validate
    set_state_validate-new c h = rw (==-ne _ _ h) refl

    step-code-waiting :
        (c : Inbound F D)
        → InPhase t crc s v d waiting c
        → Step t crc s v d waiting 1 (receive t crc s v d code_again c)
    step-code-waiting c (validate, feedback, fresh) =
        let new = set_state_validate-new c (λ e. changes (e ∙ validate)) in
        let waits = λ (e : check_integrity t crc (coded t crc s v d c) ≡ (coded t crc s v d c, [])).
          (goes_on t crc s v d waiting offered 1 (coded t crc s v d c) [] _ (new ∙ e)
            (validate, refl, feedback) (unfold deliveries in refl) (omega arith)) in
        elim (Bool-cases c.has_new_data) [
          | inr old ↦ waits (check-old t crc (coded t crc s v d c) old)
          | inl pending ↦ elim (Bool-cases (c.calculated_state == v)) [
            | inl hit ↦
                let here : c.calculated_state ≡ v = (==_iff c.calculated_state v).0 hit in
                let other : c.calculated_state ≢ s = λ e. changes (sym here ∙ e) in
                goes_on t crc s v d waiting taken 1 (accepted t crc (coded t crc s v d c))
                  (acceptance t crc (coded t crc s v d c)) _
                  (new
                    ∙ check-accept t crc (coded t crc s v d c) refl pending
                        (λ e. other (sym e ∙ feedback)) (sym here))
                  (validate, refl, here, λ e. cc)
                  (unfold deliveries in ap (λ (x : D). x ∷ []) (fresh pending other)) (omega arith)
            | inr miss ↦ waits (check-wrong t crc (coded t crc s v d c) (ground arith))
          ]
        ]

    -- The phase that one message leads to at least, by its rank.
    step :
        (m : Copy F) (p : Phase) (c : Inbound F D)
        → InPhase t crc s v d p c
        → Step t crc s v d p (progress m (rank p)) (receive t crc s v d m c)
    unfolding progress
    step (pause delta) p c h = step-pause t crc s v d p delta c h
    step datum_again waiting c h = step-datum-waiting c h
    step datum_again offered c h = step-datum-offered c h
    step datum_again taken c h = step-datum-taken c h
    step code_again waiting c h = step-code-waiting c h
    step code_again offered c h =
        stays t crc s v d offered c _ (set_state_validate-same t crc s v d c h.1) h
    step code_again taken c h =
        stays t crc s v d taken c _ (set_state_validate-same t crc s v d c h.1) h

    -- A series of messages.
    pub receive_all-Step :
        (ms : List (Copy F)) (p : Phase) (c : Inbound F D)
        → InPhase t crc s v d p c
        → (q : Phase) × InPhase t crc s v d q (receive_all t crc s v d ms c).0
          × (out t crc s v d p ++ (receive_all t crc s v d ms c).1 ≡ out t crc s v d q)
          × (progress_all ms (rank p) ≤ rank q)
    unfolding receive_all progress_all
    receive_all-Step [] p c h = (p, h, append-nil (out t crc s v d p), omega arith)
    receive_all-Step (m ∷ ms) p c h =
        let x = step m p c h in
        let (q, in_phase, output, forward) =
          receive_all-Step ms x.next (receive t crc s v d m c).0 x.in_phase in
        let rest = (receive_all t crc s v d ms (receive t crc s v d m c).0).1 in
        (
          q,
          in_phase,
          sym (append_assoc (out t crc s v d p) (deliveries (receive t crc s v d m c).1) rest)
              ∙ ap (λ l. l ++ rest) x.output
              ∙ output,
          omega (arith, progress_all_mono ms (progress m (rank p)) (rank x.next) x.forward),
        )

    settle :
        (ms : List (Copy F)) (c : Inbound F D) (q : Phase)
        → InPhase t crc s v d q (receive_all t crc s v d ms c).0
        → (receive_all t crc s v d ms c).1 ≡ out t crc s v d q
        → progress_all ms 0 ≤ rank q
        → (((receive_all t crc s v d ms c).1 ≡ []) ⊎ ((receive_all t crc s v d ms c).1 ≡ d ∷ []))
          × (progress_all ms 0 ≡ 2
              → ((receive_all t crc s v d ms c).1 ≡ d ∷ [])
                × InPhase t crc s v d taken (receive_all t crc s v d ms c).0)
    settle ms c waiting i o f = (inl o, λ e. absurd (omega arith))
    settle ms c offered i o f = (inl o, λ e. absurd (omega arith))
    settle ms c taken i o f = (inr o, λ e. (o, i))

    -- Whatever copies of one datum and of its code come in, in whatever order and with whatever
    -- pauses, and nothing else besides, the receiver delivers the datum at most once, and nothing
    -- else; once it has had the code and, at some time after that, the datum, it has delivered it
    -- exactly once, and is ready for the next one. The receiver is ready for the datum at the start,
    -- and the code is mixed from the one confirmed last, and differs from it.
    pub receive_all-once :
        (ms : List (Copy F)) (c : Inbound F D)
        → InPhase t crc s v d waiting c
        → (((receive_all t crc s v d ms c).1 ≡ []) ⊎ ((receive_all t crc s v d ms c).1 ≡ d ∷ []))
          × (progress_all ms 0 ≡ 2
              → ((receive_all t crc s v d ms c).1 ≡ d ∷ [])
                × InPhase t crc s v d taken (receive_all t crc s v d ms c).0)
    receive_all-once ms c h =
        let (q, in_phase, output, forward) = receive_all-Step ms waiting c h in
        settle ms c q in_phase output forward
