-- ===== src/Runtime.antt =====
-- `Loop` of lib/runtime/include/robobus/runtime/loop.hpp: the coroutines that wait for their time. The
-- queue of the library Nano and the clock of the platform are parameters; a coroutine is a value
-- of any type, and resuming it is left to the caller, in the order of the list.
pub mod Time
pub mod Resume
pub mod Run
pub mod Wakes
pub mod Passes
pub mod Finish
pub mod Sample
mod Tests
use robobus.Base.{
  ℕ, zero, suc, ◌<◌, ◌≡◌, ◌↔◌, Bool, true, false, List, [], ◌∷◌, ◌++◌, length, if◌then◌else◌,
}

pub record ResumeRequest (T H : Type 0) : Type 0 where
  pub time_point : T
  pub coroutine : H

-- A queue with room for 64, first in, first out, by what it holds.
pub record Queue (Q R : Type 0) : Type 0 where
  pub items : Q → List R
  pub empty : Q → Bool
  pub full : Q → Bool
  pub size : Q → ℕ
  pub pop : Q → R × Q
  pub push : R → Q → Q
  pub empty-items : (q : Q) → (empty q ≡ true) ↔ (items q ≡ [])
  pub full-items : (q : Q) → (full q ≡ false) ↔ (length (items q) < 64)
  pub size-items : (q : Q) → size q ≡ length (items q)
  pub pop-items :
      (q : Q) (r : R) (rest : List R)
      → items q ≡ r ∷ rest
      → ((pop q).0 ≡ r) × (items (pop q).1 ≡ rest)
  pub push-items : (r : R) (q : Q) → length (items q) < 64 → items (push r q) ≡ items q ++ r ∷ []

-- `>` on time points, and a time point less one millisecond, which is not later than it.
pub record Clock (T : Type 0) : Type 0 where
  pub later : T → T → Bool
  pub just_before : T → T
  pub not_later : (now : T) → later (just_before now) now ≡ false

pub record Loop (Q : Type 0) : Type 0 where
  pub resume_list : Q
  pub task_finished : Bool

module _ {Q T H : Type 0} (queue : Queue Q (ResumeRequest T H)) (clock : Clock T) where
  -- The loop of `ProcessResumeList` over the requests that are there at its start.
  unfoldable pub sweep : ℕ → T → Q → List H → Q × List H
  sweep zero now q handles = (q, handles)
  sweep (suc rounds) now q handles =
      let (ptr, q') = queue.pop q in
      let wait = clock.later ptr.time_point now in
      let rest =
        sweep rounds now (if wait then queue.push ptr q' else q')
          (if wait then handles else handles ++ ptr.coroutine ∷ []) in
      if queue.empty q then (q, handles) else rest

  unfoldable pub process_resume_list : T → Loop Q → Loop Q × List H
  process_resume_list now l =
      let finished = if queue.empty l.resume_list then true else l.task_finished in
      let (q, handles) = sweep (queue.size l.resume_list) now l.resume_list [] in
      (record { resume_list = q; task_finished = finished }, handles)

  unfoldable pub request_resume_at : T → H → Loop Q → Loop Q
  request_resume_at time_point coroutine l = if queue.full l.resume_list then l else record l {
    resume_list =
        queue.push (record { time_point = time_point; coroutine = coroutine }) l.resume_list;
  }

  unfoldable pub schedule_resume_instantly : T → H → Loop Q → Loop Q
  schedule_resume_instantly now coroutine l = if queue.full l.resume_list then l else record l {
    resume_list =
        queue.push (record { time_point = clock.just_before now; coroutine = coroutine })
          l.resume_list;
  }
