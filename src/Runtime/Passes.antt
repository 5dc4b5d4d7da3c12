-- ===== src/Runtime/Passes.antt =====
-- One pass of `Run` of lib/runtime/include/robobus/runtime/loop.hpp over coroutines that sleep, by
-- sleep.hpp.
use mathlib.Core.List.{append_assoc, append-nil}
use robobus.Base.{
  ℕ, ◌+◌, ◌<◌, ◌≤◌, ◌≡◌, ◌≢◌, refl, sym, ap, ◌∙◌, arith, true, false, List, [], ◌∷◌, ◌++◌, ◌↔◌,
  length, length-append, ltb, Bool-cases, inl, inr,
}
use robobus.Runtime.{ResumeRequest, Queue, process_resume_list, request_resume_at}
use robobus.Runtime.Time.{TimeContext, tick_time, ticks}
use robobus.Runtime.Resume.{due, still, process_resume_list-due, length-due}
use robobus.Runtime.Wakes.{
  Request, again_one, again, woken, owners, wakes, times_in, total, times_in-append, owners-append,
  wakes-append, total-append, again-wakes, again-total, length-again_one, length-again,
}
use robobus.Runtime.Run.{Sleeper, Running, sleep, resume, resume_all, pass}

module _ {Q : Type 0} (queue : Queue Q (ResumeRequest ℕ Sleeper)) where
  abbrev pub items : Running Q → List Request
  items r = queue.items r.loop.resume_list

  sleep-items :
      (duration : ℕ) (s : Sleeper) (r : Running Q)
      → length (items r) < 64
      → (items (sleep queue duration s r)
          ≡ items r ++ record { time_point = r.time.now + duration; coroutine = s } ∷ [])
        × ((sleep queue duration s r).log ≡ r.log)
        × ((sleep queue duration s r).time ≡ r.time)
        × ((sleep queue duration s r).loop.task_finished ≡ r.loop.task_finished)
  unfolding sleep request_resume_at
  sleep-items duration s r room =
      let open_ = (queue.full-items r.loop.resume_list).1 room in
      rw open_ (queue.push-items _ r.loop.resume_list room, refl, refl, refl)

  resume-items :
      (name : ℕ) (naps : List ℕ) (r : Running Q)
      → length (items r) < 64
      → let r' = resume queue (record { name = name; naps = naps }) r in
        (items r' ≡ items r ++ again_one r.time.now name naps)
        × (r'.log ≡ r.log ++ (name, r.time.now) ∷ [])
        × (r'.time ≡ r.time)
        × (r'.loop.task_finished ≡ r.loop.task_finished)
  unfolding resume again_one
  resume-items name [] r room = (sym (append-nil (items r)), refl, refl, refl)
  resume-items name (d ∷ naps) r room =
      sleep-items d (record { name = name; naps = naps })
        (record r { log = r.log ++ (name, r.time.now) ∷ [] }) room

  resume_all-items :
      (hs : List Sleeper) (r : Running Q)
      → length (items r) + length hs ≤ 64
      → let r' = resume_all queue hs r in
        (items r' ≡ items r ++ again r.time.now hs)
        × (r'.log ≡ r.log ++ woken r.time.now hs)
        × (r'.loop.task_finished ≡ r.loop.task_finished)
  unfolding resume_all again woken
  resume_all-items [] r room = (sym (append-nil (items r)), sym (append-nil r.log), refl)
  resume_all-items (s ∷ hs) r room =
      let now = r.time.now in
      let (held, logged, time, flag) = resume-items s.name s.naps r (omega arith) in
      let r' = resume queue s r in
      let size = length-append (items r) (again_one now s.name s.naps) in
      let (held', logged', flag') =
        resume_all-items hs r'
          (omega (arith, ap length held, size, length-again_one now s.name s.naps)) in
      let same : r'.time.now ≡ now = ap (λ (t : TimeContext). t.now) time in
      (
        held'
            ∙ ap (λ (t : ℕ). items r' ++ again t hs) same
            ∙ ap (λ (l : List Request). l ++ again now hs) held
            ∙ append_assoc (items r) (again_one now s.name s.naps) (again now hs),
        logged'
            ∙ ap (λ (t : ℕ). r'.log ++ woken t hs) same
            ∙ ap (λ (l : List (ℕ × ℕ)). l ++ woken now hs) logged
            ∙ append_assoc r.log ((s.name, now) ∷ []) (woken now hs),
        flag' ∙ flag,
      )

  pub pass-items :
      (reading : ℕ) (r : Running Q)
      → length (items r) ≤ 64
      → let r' = pass queue reading r in
        let hs = due queue ticks reading (items r) in
        (items r' ≡ still queue ticks reading (items r) ++ again reading hs)
        × (r'.log ≡ r.log ++ woken reading hs)
        × (r.loop.task_finished ≡ false → (r'.loop.task_finished ≡ true) ↔ (items r ≡ []))
  unfolding pass tick_time
  pass-items reading r room =
      let rs = items r in
      let (resumed, kept, size, flag) = process_resume_list-due queue ticks reading r.loop room in
      let (l, handles) = process_resume_list queue ticks reading r.loop in
      let r1 = record r { loop = l; time = tick_time reading r.time } in
      let (held, logged, same) =
        resume_all-items handles r1 (omega (arith, ap (λ (t : ℕ). t) size)) in
      (
        held
            ∙ ap (λ (hs : List Sleeper). queue.items l.resume_list ++ again reading hs) resumed
            ∙ ap (λ (xs : List Request). xs ++ again reading (due queue ticks reading rs)) kept,
        logged ∙ ap (λ (hs : List Sleeper). r.log ++ woken reading hs) resumed,
        λ fresh. rw same (flag fresh),
      )

  pub still-none :
      (now : ℕ) (rs : List Request) → due queue ticks now rs ≡ [] → still queue ticks now rs ≡ rs
  unfolding due still
  still-none now [] e = refl
  still-none now (r ∷ rs) e = elim (Bool-cases (ltb now r.time_point)) [
    | inl wait ↦ rw wait (ap (r ∷◌) (still-none now rs (rw wait at e)))
    | inr ready ↦ absurd (let some_ = rw ready at e in cc)
  ]

  pub due_first :
      (now : ℕ) (r : Request) (rs : List Request)
      → r.time_point ≤ now
      → due queue ticks now (r ∷ rs) ≢ []
  unfolding due
  due_first now r rs h e =
      let ready : ltb now r.time_point ≡ false = ground arith in
      absurd (let some_ = rw ready at e in cc)

  due-wakes :
      (n now : ℕ) (rs : List Request)
      → wakes n (due queue ticks now rs) + wakes n (owners (still queue ticks now rs))
        ≡ wakes n (owners rs)
  unfolding due still wakes owners
  due-wakes n now [] = refl
  due-wakes n now (r ∷ rs) = elim (Bool-cases (ltb now r.time_point)) [
    | inl wait ↦ rw wait (omega (arith, due-wakes n now rs))
    | inr ready ↦ rw ready (omega (arith, due-wakes n now rs))
  ]

  due-total :
      (now : ℕ) (rs : List Request)
      → total (due queue ticks now rs) + total (owners (still queue ticks now rs))
        ≡ total (owners rs)
  unfolding due still total owners
  due-total now [] = refl
  due-total now (r ∷ rs) = elim (Bool-cases (ltb now r.time_point)) [
    | inl wait ↦ rw wait (omega (arith, due-total now rs))
    | inr ready ↦ rw ready (omega (arith, due-total now rs))
  ]

  -- What a pass does to the times that are to come, and to those that were.
  pub pass-counts :
      (reading : ℕ) (r : Running Q)
      → length (items r) ≤ 64
      → let r' = pass queue reading r in
        (length (items r') ≤ 64)
        × (total (owners (items r')) + length (due queue ticks reading (items r))
            ≡ total (owners (items r)))
        × ((n : ℕ)
            → times_in n r'.log + wakes n (owners (items r'))
              ≡ times_in n r.log + wakes n (owners (items r)))
  pass-counts reading r room =
      let rs = items r in
      let hs = due queue ticks reading rs in
      let kept = still queue ticks reading rs in
      let (held, logged, _) = pass-items reading r room in
      let owned = ap owners held ∙ owners-append kept (again reading hs) in
      (
        omega (
          arith,
          ap length held,
          length-append kept (again reading hs),
          length-again reading hs,
          length-due queue ticks reading rs,
        ),
        omega (
          arith,
          ap total owned,
          total-append (owners kept) (owners (again reading hs)),
          again-total reading hs,
          due-total reading rs,
        ),
        λ n. omega (
          arith,
          ap (times_in n) logged,
          times_in-append n r.log (woken reading hs),
          ap (wakes n) owned,
          wakes-append n (owners kept) (owners (again reading hs)),
          again-wakes n reading hs,
          due-wakes n reading rs,
        ),
      )
