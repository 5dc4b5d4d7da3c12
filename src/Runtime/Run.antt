-- ===== src/Runtime/Run.antt =====
-- `Run` of lib/runtime/include/robobus/runtime/loop.hpp, with coroutines that sleep, by `Sleep` of
-- sleep.hpp, for some durations one after another and then return.
use robobus.Base.{ℕ, zero, suc, ◌+◌, false, Option, none, some, List, [], ◌∷◌, ◌++◌, if◌then◌else◌}
use robobus.Runtime.{ResumeRequest, Queue, Loop, process_resume_list, request_resume_at}
use robobus.Runtime.Time.{TimeContext, tick_time, ticks}

-- A coroutine by its name and the durations that are left.
pub record Sleeper : Type 0 where
  pub name : ℕ
  pub naps : List ℕ

-- A loop with its time, and the names that were resumed so far with the times.
pub record Running (Q : Type 0) : Type 0 where
  pub loop : Loop Q
  pub time : TimeContext
  pub log : List (ℕ × ℕ)

module _ {Q : Type 0} (queue : Queue Q (ResumeRequest ℕ Sleeper)) where
  -- `SleepAwaiter::await_suspend`
  unfoldable pub sleep : ℕ → Sleeper → Running Q → Running Q
  sleep duration coroutine r = record r {
    loop = request_resume_at queue ticks (r.time.now + duration) coroutine r.loop;
  }

  -- A coroutine goes on to its next nap, or to its end.
  unfoldable pub resume : Sleeper → Running Q → Running Q
  unfolding sleep
  resume s r =
      let r' = record r { log = r.log ++ (s.name, r.time.now) ∷ [] } in
      elim s.naps [ [] ↦ r' | duration ∷ naps ↦ sleep duration (record s { naps = naps }) r' ]

  unfoldable pub resume_all : List Sleeper → Running Q → Running Q
  unfolding resume
  resume_all [] r = r
  resume_all (s ∷ rest) r = resume_all rest (resume s r)

  -- `time.Tick()` and `ProcessResumeList()`, with a reading of the clock.
  unfoldable pub pass : ℕ → Running Q → Running Q
  unfolding resume_all
  pass reading r =
      let time = tick_time reading r.time in
      let (loop, handles) = process_resume_list queue ticks time.now r.loop in
      resume_all handles (record r { loop = loop; time = time })

  -- The loop of `Run`, on the readings from the k-th on; `none` means that the fuel ran out.
  unfoldable pub run_loop : ℕ → (ℕ → ℕ) → ℕ → Running Q → Option (Running Q)
  unfolding pass
  run_loop zero readings k r = none
  run_loop (suc fuel) readings k r =
      let rest = run_loop fuel readings (suc k) (pass (readings k) r) in
      if r.loop.task_finished then some r else rest

  unfoldable pub run : ℕ → (ℕ → ℕ) → ℕ → Running Q → Option (Running Q)
  unfolding run_loop
  run fuel readings k r =
      run_loop fuel readings k (record r { loop = record r.loop { task_finished = false } })
