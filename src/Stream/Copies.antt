-- ===== src/Stream/Copies.antt =====
-- The messages that bring one datum to the receiver of lib/bus/include/robobus/network/cstream.hpp, and
-- how far they bring it.
use robobus.Base.{ℕ, zero, suc, ◌≤◌, arith, List, [], ◌∷◌}
use robobus.Stream.Inbound.{InboundEvent, feedback_updated, delivered, inbound_ok}

-- The data among the events.
unfoldable pub deliveries : {D : Type 0} → List (InboundEvent D) → List D
deliveries [] = []
deliveries (feedback_updated v ∷ rest) = deliveries rest
deliveries (delivered d ∷ rest) = d ∷ deliveries rest
deliveries (inbound_ok ∷ rest) = deliveries rest

-- What comes in while one datum is under way: a copy of it, a copy of its code, or time passes.
pub data Copy (F : Type 0) : Type 0 where
  datum_again code_again : Copy F
  pause : F → Copy F

-- How far the receiver is with the datum.
pub data Phase : Type 0 where
  waiting offered taken : Phase

abbrev pub rank : Phase → ℕ
rank waiting = 0
rank offered = 1
rank taken = 2

-- A copy of the code leads to the second phase, and a copy of the datum from there to the last.
unfoldable pub progress : {F : Type 0} → Copy F → ℕ → ℕ
progress datum_again zero = zero
progress datum_again (suc k) = 2
progress code_again zero = 1
progress code_again (suc k) = suc k
progress (pause delta) k = k

unfoldable pub progress_all : {F : Type 0} → List (Copy F) → ℕ → ℕ
unfolding progress
progress_all [] k = k
progress_all (m ∷ ms) k = progress_all ms (progress m k)

progress_mono : {F : Type 0} (m : Copy F) (j k : ℕ) → j ≤ k → progress m j ≤ progress m k
unfolding progress
progress_mono datum_again zero zero h = omega arith
progress_mono datum_again zero (suc k) h = omega arith
progress_mono datum_again (suc j) zero h = absurd (omega arith)
progress_mono datum_again (suc j) (suc k) h = omega arith
progress_mono code_again zero zero h = omega arith
progress_mono code_again zero (suc k) h = omega arith
progress_mono code_again (suc j) zero h = absurd (omega arith)
progress_mono code_again (suc j) (suc k) h = h
progress_mono (pause delta) j k h = h

pub progress_all_mono :
    {F : Type 0} (ms : List (Copy F)) (j k : ℕ) → j ≤ k → progress_all ms j ≤ progress_all ms k
unfolding progress_all
progress_all_mono [] j k h = h
progress_all_mono (m ∷ ms) j k h =
    progress_all_mono ms (progress m j) (progress m k) (progress_mono m j k h)
