-- ===== src/Runtime/Time.antt =====
-- `TimeContext` of lib/runtime/include/robobus/runtime/time_context.hpp. A time point is the number of
-- ticks of the platform's clock, and a duration is a difference of two; what the clock reads is an
-- argument.
use robobus.Base.{ℕ, ◌-◌, ◌≡◌, refl, ap, sym, ◌∙◌, arith, false, List, [], ◌∷◌, ltb}
use robobus.Base.Int.{ℤ, pos, sub_ℕ, ◌+ℤ◌, sub_ℕ-self, sub_ℕ-chain}
use robobus.Runtime.{Clock}

pub record TimeContext : Type 0 where
  pub start : ℕ
  pub now : ℕ
  pub last : ℕ
  pub delta : ℤ

unfoldable pub reset_time : ℕ → TimeContext
reset_time reading = record { start = reading; now = reading; last = reading; delta = pos 0 }

unfoldable pub tick_time : ℕ → TimeContext → TimeContext
tick_time reading t = record t { last = t.now; now = reading; delta = sub_ℕ reading t.now }

unfoldable pub elapsed_time : TimeContext → ℤ
elapsed_time t = sub_ℕ t.now t.start

unfoldable pub delta_time : TimeContext → ℤ
delta_time t = t.delta

-- `>` on time points, and one before.
pub not_later_now : (now : ℕ) → ltb now (now - 1) ≡ false
not_later_now now = ground arith

abbrev pub ticks : Clock ℕ
ticks = record { later = λ a b. ltb b a; just_before = λ a. a - 1; not_later = not_later_now }

-- A tick for each reading, with the sum of the deltas that show after them.
pub tick_all : List ℕ → TimeContext → TimeContext
tick_all [] t = t
tick_all (r ∷ rs) t = tick_all rs (tick_time r t)

pub sum_deltas : List ℕ → TimeContext → ℤ
sum_deltas [] t = pos 0
sum_deltas (r ∷ rs) t = delta_time (tick_time r t) +ℤ sum_deltas rs (tick_time r t)

sum_deltas-sub_ℕ :
    (rs : List ℕ) (t : TimeContext) → sum_deltas rs t ≡ sub_ℕ (tick_all rs t).now t.now
unfolding sum_deltas tick_all tick_time delta_time
sum_deltas-sub_ℕ [] t = sym (sub_ℕ-self t.now)
sum_deltas-sub_ℕ (r ∷ rs) t =
    ap (λ (d : ℤ). sub_ℕ r t.now +ℤ d) (sum_deltas-sub_ℕ rs (tick_time r t))
    ∙ sub_ℕ-chain t.now r (tick_all rs (tick_time r t)).now

tick_all-start : (rs : List ℕ) (t : TimeContext) → (tick_all rs t).start ≡ t.start
unfolding tick_all tick_time
tick_all-start [] t = refl
tick_all-start (r ∷ rs) t = tick_all-start rs (tick_time r t)

-- The time since `Reset` is the sum of the deltas of all ticks, forward and back, whatever the
-- clock reads.
pub elapsed_time-tick_all :
    (reading : ℕ) (rs : List ℕ)
    → elapsed_time (tick_all rs (reset_time reading)) ≡ sum_deltas rs (reset_time reading)
unfolding elapsed_time reset_time
elapsed_time-tick_all reading rs =
    ap (λ (s : ℕ). sub_ℕ (tick_all rs (reset_time reading)).now s)
      (tick_all-start rs (reset_time reading))
    ∙ sym (sum_deltas-sub_ℕ rs (reset_time reading))
