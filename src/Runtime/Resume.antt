-- ===== src/Runtime/Resume.antt =====
-- What `ProcessResumeList` of lib/runtime/include/robobus/runtime/loop.hpp resumes, and what it keeps.
use mathlib.Core.List.{append_assoc, append-nil}
use robobus.Base.{
  ◌+◌, ◌<◌, ◌≤◌, ◌≡◌, ◌↔◌, refl, sym, ap, ◌∙◌, arith, true, false, List, [], ◌∷◌, ◌++◌, length,
  length-append, if◌then◌else◌, Bool-cases, inl, inr,
}
use robobus.Runtime.{
  ResumeRequest, Queue, Clock, Loop, sweep, process_resume_list, request_resume_at,
  schedule_resume_instantly,
}

module _ {Q T H : Type 0} (queue : Queue Q (ResumeRequest T H)) (clock : Clock T) where
  -- The coroutines whose time has come, and the requests for which it has not, in their order.
  unfoldable pub due : T → List (ResumeRequest T H) → List H
  due now [] = []
  due now (r ∷ rest) =
      let others = due now rest in
      if clock.later r.time_point now then others else r.coroutine ∷ others

  unfoldable pub still : T → List (ResumeRequest T H) → List (ResumeRequest T H)
  still now [] = []
  still now (r ∷ rest) =
      let others = still now rest in if clock.later r.time_point now then r ∷ others else others

  sweep-items :
      (now : T) (todo kept : List (ResumeRequest T H)) (q : Q) (handles : List H)
      → queue.items q ≡ todo ++ kept
      → length (queue.items q) ≤ 64
      → (queue.items (sweep queue clock (length todo) now q handles).0 ≡ kept ++ still now todo)
        × ((sweep queue clock (length todo) now q handles).1 ≡ handles ++ due now todo)
  unfolding sweep still due
  sweep-items now [] kept q handles e room = (e ∙ sym (append-nil kept), sym (append-nil handles))
  sweep-items now (r ∷ todo) kept q handles e room =
      let (popped, left) = queue.pop-items q r (todo ++ kept) e in
      let busy : queue.empty q ≡ false = elim (Bool-cases (queue.empty q)) [
        | inl h ↦ absurd (let none_ = sym e ∙ (queue.empty-items q).0 h in cc)
        | inr h ↦ h
      ] in
      elim (Bool-cases (clock.later r.time_point now)) [
        | inl wait ↦
            let q' = (queue.pop q).1 in
            let smaller : length (queue.items q') < 64 =
              omega (arith, ap length e, ap length left) in
            let back = queue.push-items r q' smaller in
            let size = length-append (queue.items q') (r ∷ []) in
            let moved = back ∙ ap (λ l. l ++ r ∷ []) left ∙ append_assoc todo kept (r ∷ []) in
            let (items, handles_) =
              sweep-items now todo (kept ++ r ∷ []) (queue.push r q') handles moved
                (omega (arith, size, ap length back)) in
            rw (busy, popped, wait) (items ∙ append_assoc kept (r ∷ []) (still now todo), handles_)
        | inr ready ↦
            let (items, handles_) =
              sweep-items now todo kept (queue.pop q).1 (handles ++ r.coroutine ∷ []) left
                (omega (arith, ap length e, ap length left)) in
            rw (busy, popped, ready)
              (items, handles_ ∙ append_assoc handles (r.coroutine ∷ []) (due now todo))
      ]

  pub length-due :
      (now : T) (rs : List (ResumeRequest T H))
      → length (due now rs) + length (still now rs) ≡ length rs
  unfolding due still
  length-due now [] = refl
  length-due now (r ∷ rs) = elim (Bool-cases (clock.later r.time_point now)) [
    | inl wait ↦ rw wait (omega (arith, length-due now rs))
    | inr ready ↦ rw ready (omega (arith, length-due now rs))
  ]

  ends :
      (l : Loop Q)
      → l.task_finished ≡ false
      → ((if queue.empty l.resume_list then true else l.task_finished) ≡ true)
        ↔ (queue.items l.resume_list ≡ [])
  ends l fresh = elim (Bool-cases (queue.empty l.resume_list)) [
    | inl e ↦ rw e (λ _. (queue.empty-items l.resume_list).0 e, λ _. refl)
    | inr e ↦
        rw (e, fresh)
          (λ h. cc, λ h. absurd (let x = sym e ∙ (queue.empty-items l.resume_list).1 h in cc))
  ]

  -- One pass resumes exactly the coroutines whose time has come, each once and in the order of the
  -- queue, and keeps exactly the other requests, in their order; the loop is told to end if there
  -- was nothing in the queue at all. The queue holds at most 64 requests.
  pub process_resume_list-due :
      (now : T) (l : Loop Q)
      → length (queue.items l.resume_list) ≤ 64
      → let r = process_resume_list queue clock now l in
        (r.1 ≡ due now (queue.items l.resume_list))
        × (queue.items r.0.resume_list ≡ still now (queue.items l.resume_list))
        × (length r.1 + length (queue.items r.0.resume_list) ≡ length (queue.items l.resume_list))
        × (l.task_finished ≡ false → (r.0.task_finished ≡ true) ↔ (queue.items l.resume_list ≡ []))
  unfolding process_resume_list
  process_resume_list-due now l room =
      let items = queue.items l.resume_list in
      let (kept, resumed) =
        sweep-items now items [] l.resume_list [] (sym (append-nil items)) room in
      rw (queue.size-items l.resume_list) (
        resumed,
        kept,
        omega (arith, ap length kept, ap length resumed, length-due now items),
        λ fresh. ends l fresh,
      )

  due-append :
      (now : T) (rs ss : List (ResumeRequest T H)) → due now (rs ++ ss) ≡ due now rs ++ due now ss
  unfolding due
  due-append now [] ss = refl
  due-append now (r ∷ rs) ss = elim (Bool-cases (clock.later r.time_point now)) [
    | inl wait ↦ rw wait (due-append now rs ss)
    | inr ready ↦ rw ready (ap (λ l. r.coroutine ∷ l) (due-append now rs ss))
  ]

  still-append :
      (now : T) (rs ss : List (ResumeRequest T H))
      → still now (rs ++ ss) ≡ still now rs ++ still now ss
  unfolding still
  still-append now [] ss = refl
  still-append now (r ∷ rs) ss = elim (Bool-cases (clock.later r.time_point now)) [
    | inl wait ↦ rw wait (ap (λ l. r ∷ l) (still-append now rs ss))
    | inr ready ↦ rw ready (still-append now rs ss)
  ]

  -- A coroutine that is scheduled at once while there is room is resumed by a pass at the same
  -- moment, behind those that were due before.
  pub schedule_resume_instantly-due :
      (now : T) (coroutine : H) (l : Loop Q)
      → length (queue.items l.resume_list) < 64
      → (process_resume_list queue clock now
          (schedule_resume_instantly queue clock now coroutine l)).1
        ≡ due now (queue.items l.resume_list) ++ coroutine ∷ []
  unfolding schedule_resume_instantly
  schedule_resume_instantly-due now coroutine l room =
      let request : ResumeRequest T H = record {
        time_point = clock.just_before now;
        coroutine = coroutine;
      } in
      let open_ = (queue.full-items l.resume_list).1 room in
      let pushed = queue.push-items request l.resume_list room in
      let size = length-append (queue.items l.resume_list) (request ∷ []) in
      let l' : Loop Q = record l { resume_list = queue.push request l.resume_list } in
      let all = process_resume_list-due now l' (omega (arith, ap length pushed, size)) in
      rw open_ (
        all.0
        ∙ ap (due now) pushed
        ∙ due-append now (queue.items l.resume_list) (request ∷ [])
        ∙ ap (λ x. due now (queue.items l.resume_list) ++ x)
            (unfold due in rw (clock.not_later now) refl))

  -- A coroutine that asks to be resumed at some time, while there is room, is resumed by the next
  -- pass if that time is not later than the pass, behind those that were due before, and stays
  -- behind the requests that wait if it is later.
  pub request_resume_at-due :
      (now time : T) (coroutine : H) (l : Loop Q)
      → length (queue.items l.resume_list) < 64
      → let r =
          process_resume_list queue clock now (request_resume_at queue clock time coroutine l) in
        let waits = clock.later time now in
        let request : ResumeRequest T H = record { time_point = time; coroutine = coroutine } in
        (r.1 ≡ due now (queue.items l.resume_list) ++ (if waits then [] else coroutine ∷ []))
        × (queue.items r.0.resume_list
            ≡ still now (queue.items l.resume_list) ++ (if waits then request ∷ [] else []))
  unfolding request_resume_at
  request_resume_at-due now time coroutine l room =
      let request : ResumeRequest T H = record { time_point = time; coroutine = coroutine } in
      let open_ = (queue.full-items l.resume_list).1 room in
      let pushed = queue.push-items request l.resume_list room in
      let size = length-append (queue.items l.resume_list) (request ∷ []) in
      let l' : Loop Q = record l { resume_list = queue.push request l.resume_list } in
      let all = process_resume_list-due now l' (omega (arith, ap length pushed, size)) in
      rw open_ (
        all.0
            ∙ ap (due now) pushed
            ∙ due-append now (queue.items l.resume_list) (request ∷ [])
            ∙ unfold due in refl,
        all.1
            ∙ ap (still now) pushed
            ∙ still-append now (queue.items l.resume_list) (request ∷ [])
            ∙ unfold still in refl,
      )
