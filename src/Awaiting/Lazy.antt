-- ===== src/Awaiting/Lazy.antt =====
-- A value that is handed over by lib/runtime/include/robobus/runtime/lazy_resumer.hpp and the loop of
-- runtime/loop.hpp.
use robobus.Base.{◌<◌, ◌≡◌, refl, true, false, none, some, [], ◌∷◌, ◌++◌, length}
use robobus.Runtime.{
  ResumeRequest, Queue, Clock, Loop, process_resume_list, schedule_resume_instantly,
}
use robobus.Runtime.Resume.{due, schedule_resume_instantly-due}
use robobus.Awaiting.{
  LazyResumer, associate_loop, await_ready, await_suspend, await_resume, resume_lazily, resume_on,
}

module _ {T H Q P : Type 0} (queue : Queue Q (ResumeRequest P H)) (clock : Clock P) where
  -- A coroutine that waits at a resumer with a loop is not resumed by `Resume` itself, but by the
  -- next pass of the loop at that moment, behind those that were due before; then it gets the value
  -- that was handed over. `await_ready` is true while it waits, and false once it was resumed; after
  -- that nobody waits, and a second `Resume` does not return. The queue of the loop has room.
  pub resume_lazily-delivers :
      (now : P) (h : H) (v w : T) (r : LazyResumer T H) (loop : Loop Q)
      → length (queue.items loop.resume_list) < 64
      → (r' : LazyResumer T H) × (loop' : Loop Q) × (resume_lazily queue clock now v
            (await_suspend h (associate_loop r))
            loop
          ≡ some (r', loop'))
        × ((process_resume_list queue clock now loop').1
            ≡ due queue clock now (queue.items loop.resume_list) ++ h ∷ [])
        × (await_resume r' ≡ some v)
        × (await_ready r' ≡ false)
        × (resume_lazily queue clock now w r' loop' ≡ none)
        × (await_ready (await_suspend h (associate_loop r)) ≡ true)
  unfolding resume_lazily await_suspend associate_loop await_resume await_ready
  resume_lazily-delivers now h v w r loop room = (
    record { waiter_available = false; handle = none; value = some v; has_resumer = true },
    schedule_resume_instantly queue clock now h loop,
    refl,
    schedule_resume_instantly-due queue clock now h loop room,
    refl,
    refl,
    refl,
    refl,
  )

  -- The two overloads of `Resume` do the same on a resumer with a loop.
  resume_on-resume_lazily :
      (now : P) (v : T) (r : LazyResumer T H) (loop : Loop Q)
      → r.has_resumer ≡ true
      → resume_on queue clock now v r loop ≡ resume_lazily queue clock now v r loop
  unfolding resume_on resume_lazily
  resume_on-resume_lazily now v r loop set_ = rw set_ refl
