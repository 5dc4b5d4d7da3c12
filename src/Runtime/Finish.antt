-- ===== src/Runtime/Finish.antt =====
-- That `Run` of lib/runtime/include/robobus/runtime/loop.hpp comes to an end, and what it has done.
use mathlib.Core.List.{append-nil}
use robobus.Base.{
  ℕ, zero, suc, ◌+◌, ◌≤◌, ◌≡◌, refl, sym, ap, subst, ◌∙◌, arith, Bool, true, false, some, List, [],
  ◌∷◌, ◌++◌, length, if◌then◌else◌, Bool-cases, List-cases, inl, inr,
}
use robobus.Runtime.{ResumeRequest, Queue}
use robobus.Runtime.Time.{ticks}
use robobus.Runtime.Resume.{due, still}
use robobus.Runtime.Wakes.{Request, again, woken, owners, wakes, times_in, total}
use robobus.Runtime.Passes.{items, pass-items, pass-counts, still-none, due_first}
use robobus.Runtime.Run.{Sleeper, Running, pass, run_loop, run}

module _ {Q : Type 0} (queue : Queue Q (ResumeRequest ℕ Sleeper)) (readings : ℕ → ℕ)
    (reaches : (k t : ℕ) → (n : ℕ) × (t ≤ readings (k + n))) where
  -- The loop comes to its end, and has resumed everyone as often as it should.
  abbrev Ends : ℕ → Running Q → Type 0
  Ends k r =
      (fuel : ℕ) × (r' : Running Q) × (run_loop queue fuel readings k r ≡ some r')
      × (items queue r' ≡ [])
      × ((n : ℕ) → times_in n r'.log ≡ times_in n r.log + wakes n (owners (items queue r)))

  run_loop-pass :
      (fuel k : ℕ) (r : Running Q)
      → r.loop.task_finished ≡ false
      → run_loop queue (suc fuel) readings k r
        ≡ run_loop queue fuel readings (suc k) (pass queue (readings k) r)
  unfolding run_loop
  run_loop-pass fuel k r busy =
      let rest = run_loop queue fuel readings (suc k) (pass queue (readings k) r) in
      ap (λ (b : Bool). if b then some r else rest) busy

  run_loop-finished :
      (fuel k : ℕ) (r : Running Q)
      → r.loop.task_finished ≡ true
      → run_loop queue (suc fuel) readings k r ≡ some r
  unfolding run_loop
  run_loop-finished fuel k r done =
      let rest = run_loop queue fuel readings (suc k) (pass queue (readings k) r) in
      ap (λ (b : Bool). if b then some r else rest) done

  Ends-pass :
      (k : ℕ) (r : Running Q)
      → r.loop.task_finished ≡ false
      → length (items queue r) ≤ 64
      → Ends (suc k) (pass queue (readings k) r)
      → Ends k r
  Ends-pass k r busy room (fuel, r', returns, empty, count) =
      let (_, _, same) = pass-counts queue (readings k) r room in
      (suc fuel, r', run_loop-pass fuel k r busy ∙ returns, empty, λ n. count n ∙ same n)

  Ends-empty :
      (k : ℕ) (r : Running Q) → r.loop.task_finished ≡ false → items queue r ≡ [] → Ends k r
  unfolding wakes owners due still again woken total
  Ends-empty k r busy none_ =
      let room : length (items queue r) ≤ 64 = omega (arith, ap length none_) in
      let r' = pass queue (readings k) r in
      let (held, _, flag) = pass-items queue (readings k) r room in
      let (_, size, same) = pass-counts queue (readings k) r room in
      let done : r'.loop.task_finished ≡ true = (flag busy).1 none_ in
      let left : items queue r' ≡ [] = held ∙ rw none_ refl in
      (
        2,
        r',
        run_loop-pass 1 k r busy ∙ run_loop-finished 0 (suc k) r' done,
        left,
        λ n. omega (arith, same n, ap (λ (xs : List Request). wakes n (owners xs)) left),
      )

  pass-nobody :
      (k : ℕ) (r : Running Q)
      → length (items queue r) ≤ 64
      → due queue ticks (readings k) (items queue r) ≡ []
      → items queue (pass queue (readings k) r) ≡ items queue r
  unfolding again
  pass-nobody k r room nobody =
      let kept = still queue ticks (readings k) (items queue r) in
      (pass-items queue (readings k) r room).0
      ∙ ap (λ (hs : List Sleeper). kept ++ again (readings k) hs) nobody
      ∙ append-nil kept
      ∙ still-none queue (readings k) (items queue r) nobody

  -- A pass resumes nobody, or there is less to come.
  Ends-next :
      (m k : ℕ) (r : Running Q) (first : Request) (rest : List Request)
      → ((k' : ℕ) (r' : Running Q)
          → r'.loop.task_finished ≡ false
          → length (items queue r') ≤ 64
          → total (owners (items queue r')) ≤ m
          → Ends k' r')
      → items queue r ≡ first ∷ rest
      → r.loop.task_finished ≡ false
      → length (items queue r) ≤ 64
      → total (owners (items queue r)) ≤ suc m
      → (due queue ticks (readings k) (items queue r) ≡ []
          → (pass queue (readings k) r).loop.task_finished ≡ false
          → Ends (suc k) (pass queue (readings k) r))
      → Ends k r
  Ends-next m k r first rest smaller e busy room size nobody_then =
      let (_, _, flag) = pass-items queue (readings k) r room in
      let (room', total', _) = pass-counts queue (readings k) r room in
      let r' = pass queue (readings k) r in
      let busy' : r'.loop.task_finished ≡ false = elim (Bool-cases r'.loop.task_finished) [
        | inl done ↦ absurd (let none_ = sym e ∙ (flag busy).0 done in cc)
        | inr h ↦ h
      ] in
      Ends-pass k r busy room (elim (List-cases (due queue ticks (readings k) (items queue r))) [
        | inl nobody ↦ nobody_then nobody busy'
        | inr (s, hs, someone) ↦
            smaller (suc k) r' busy' room' (omega (arith, total', ap length someone))
      ])

  -- The first request is `n` readings away at most.
  Ends-within :
      (m : ℕ)
      → ((k' : ℕ) (r' : Running Q)
          → r'.loop.task_finished ≡ false
          → length (items queue r') ≤ 64
          → total (owners (items queue r')) ≤ m
          → Ends k' r')
      → (n k : ℕ) (r : Running Q) (first : Request) (rest : List Request)
      → items queue r ≡ first ∷ rest
      → first.time_point ≤ readings (k + n)
      → r.loop.task_finished ≡ false
      → length (items queue r) ≤ 64
      → total (owners (items queue r)) ≤ suc m
      → Ends k r
  Ends-within m smaller zero k r first rest e at busy room size =
      Ends-next m k r first rest smaller e busy room size (λ nobody busy'.
        let here : k + 0 ≡ k = omega arith in
        absurd (
          due_first queue (readings k) first rest
            (subst (λ j. first.time_point ≤ readings j) here at)
            (ap (due queue ticks (readings k)) (sym e) ∙ nobody)))
  Ends-within m smaller (suc n) k r first rest e at busy room size =
      Ends-next m k r first rest smaller e busy room size (λ nobody busy'.
        let same = pass-nobody k r room nobody in
        let next : k + suc n ≡ suc k + n = omega arith in
        Ends-within m smaller n (suc k) (pass queue (readings k) r) first rest (same ∙ e)
          (subst (λ j. first.time_point ≤ readings j) next at) busy' (omega (arith, ap length same))
          (omega (arith, ap (λ (xs : List Request). total (owners xs)) same)))

  Ends-below :
      (m k : ℕ) (r : Running Q)
      → r.loop.task_finished ≡ false
      → length (items queue r) ≤ 64
      → total (owners (items queue r)) ≤ m
      → Ends k r
  unfolding total owners
  Ends-below zero k r busy room size = elim (List-cases (items queue r)) [
    | inl e ↦ Ends-empty k r busy e
    | inr (first, rest, e) ↦ absurd (omega (arith, ap (λ (xs : List Request). total (owners xs)) e))
  ]
  Ends-below (suc m) k r busy room size = elim (List-cases (items queue r)) [
    | inl e ↦ Ends-empty k r busy e
    | inr (first, rest, e) ↦
        let (n, at) = reaches k first.time_point in
        Ends-within m (Ends-below m) n k r first rest e at busy room size
  ]

  -- `Run` comes to an end with nothing left in the queue, whatever the order in which the
  -- coroutines asked for their times, and has by then resumed each coroutine once for the request
  -- that was in the queue and once more after each of its naps. The clock reaches every time
  -- point in the end, and the queue holds at most 64 requests at first.
  pub run-ends :
      (k : ℕ) (r : Running Q)
      → length (items queue r) ≤ 64
      → (fuel : ℕ) × (r' : Running Q) × (run queue fuel readings k r ≡ some r')
        × (items queue r' ≡ [])
        × ((n : ℕ) → times_in n r'.log ≡ times_in n r.log + wakes n (owners (items queue r)))
  unfolding run
  run-ends k r room =
      Ends-below (total (owners (items queue r))) k
        (record r { loop = record r.loop { task_finished = false } }) refl room (omega arith)
