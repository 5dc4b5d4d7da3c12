-- ===== src/Awaiting/Tests.antt =====
-- Coroutines that are numbers, waiting for a number.
use robobus.Base.{ℕ, ◌≡◌, refl, arith, true, false, none, some, List, [], ◌∷◌}
use robobus.Runtime.{Loop, process_resume_list}
use robobus.Runtime.Sample.{list_queue, ticks, busy_loop, Request}
use robobus.Runtime.Resume.{due}
use robobus.Awaiting.{
  LazyResumer, new_lazy_resumer, associate_loop, await_ready, await_suspend, await_resume,
  resume_lazily, Promise, new_promise, return_value, result_of, wait_all,
}
use robobus.Awaiting.Lazy.{resume_lazily-delivers}
use robobus.Awaiting.Waiters.{return_value-resumes}

abbrev lazy : LazyResumer ℕ ℕ
lazy = new_lazy_resumer

resume_lazily-delivers_example :
    (r' : LazyResumer ℕ ℕ) × (loop' : Loop (List Request)) × (resume_lazily list_queue ticks 10 42
        (await_suspend 7 (associate_loop lazy))
        busy_loop
      ≡ some (r', loop'))
    × ((process_resume_list list_queue ticks 10 loop').1 ≡ 1 ∷ 3 ∷ 7 ∷ [])
    × (await_resume r' ≡ some 42)
    × (await_ready r' ≡ false)
    × (resume_lazily list_queue ticks 10 43 r' loop' ≡ none)
    × (await_ready (await_suspend 7 (associate_loop lazy)) ≡ true)
unfolding due
resume_lazily-delivers_example =
    resume_lazily-delivers list_queue ticks 10 7 42 43 lazy busy_loop (omega arith)

abbrev empty_promise : Promise ℕ ℕ
empty_promise = new_promise

return_value-resumes_example :
    (p' : Promise ℕ ℕ) × (return_value 5 (wait_all (1 ∷ 2 ∷ []) empty_promise)
      ≡ some (p', 1 ∷ 2 ∷ []))
    × (result_of (wait_all (1 ∷ 2 ∷ []) empty_promise) ≡ none)
    × (result_of p' ≡ some 5)
    × (return_value 6 p' ≡ none)
return_value-resumes_example = return_value-resumes (1 ∷ 2 ∷ []) 5 6 empty_promise refl
