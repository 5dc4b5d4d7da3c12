-- ===== src/Runtime/Tests.antt =====
-- The loop on a queue made of a list, with time points that are numbers.
use robobus.Base.{ℕ, ◌+◌, ◌≡◌, ◌↔◌, arith, some, true, false, List, [], ◌∷◌, length}
use robobus.Runtime.{ResumeRequest, Queue, Loop, process_resume_list}
use robobus.Runtime.Sample.{Request, request, list_queue, list_queue_of, ticks, busy_loop}
use robobus.Runtime.Time.{reset_time}
use robobus.Runtime.Run.{Sleeper, Running, run}
use robobus.Runtime.Wakes.{owners, wakes, times_in}
use robobus.Runtime.Finish.{run-ends}
use robobus.Runtime.Resume.{due, still, process_resume_list-due}

abbrev at_ten : Loop (List Request) × List ℕ
at_ten = process_resume_list list_queue ticks 10 busy_loop

process_resume_list-due_example :
    (at_ten.1 ≡ 1 ∷ 3 ∷ [])
    × (at_ten.0.resume_list ≡ request 20 2 ∷ [])
    × (length at_ten.1 + length at_ten.0.resume_list ≡ 3)
    × (false ≡ false → (at_ten.0.task_finished ≡ true) ↔ (busy_loop.resume_list ≡ []))
unfolding due still
process_resume_list-due_example =
    process_resume_list-due list_queue ticks 10 busy_loop (omega arith)

abbrev sleepers : Queue (List (ResumeRequest ℕ Sleeper)) (ResumeRequest ℕ Sleeper)
sleepers = list_queue_of (record { time_point = 0; coroutine = record { name = 0; naps = [] } })

-- Two coroutines that have just been started: one sleeps twice, and one once.
abbrev two_sleepers : Running (List (ResumeRequest ℕ Sleeper))
two_sleepers = record {
  loop = record {
    resume_list =
        record { time_point = 0; coroutine = record { name = 1; naps = 3 ∷ 4 ∷ [] } }
        ∷ record { time_point = 2; coroutine = record { name = 2; naps = 1 ∷ [] } }
        ∷ [];
    task_finished = false;
  };
  time = reset_time 0;
  log = [];
}

abbrev Ended : (ℕ → ℕ) → Type 0
Ended readings =
    (fuel : ℕ) × (r : Running (List (ResumeRequest ℕ Sleeper))) × (run sleepers fuel readings 0
        two_sleepers
      ≡ some r)
    × (r.loop.resume_list ≡ [])
    × ((n : ℕ) → times_in n r.log ≡ times_in n [] + wakes n (owners two_sleepers.loop.resume_list))

run-ends_example : Ended (λ k. k)
run-ends_example = run-ends sleepers (λ k. k) (λ k t. (t, omega arith)) 0 two_sleepers (omega arith)
