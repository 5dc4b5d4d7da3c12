-- ===== src/Awaiting/Spot.antt =====
-- A value that is handed over on the spot by lib/runtime/include/robobus/coroutine/
-- immediacy_awaiter.hpp, and an end without a value, by promise.hpp.
use robobus.Base.{◌≡◌, refl, true, false, none, some, [], ◌∷◌, ◌++◌}
use robobus.Awaiting.{
  Immediacy, ready_immediately, result_immediately, suspend_immediately, resume_immediately,
  VoidPromise, is_void_ready, wait_for_end, return_void,
}

module _ {T H : Type 0} where
  -- `Resume` of an `ImmediacyAwaiter` resumes the coroutine that waits, which finds the value that
  -- was handed over; after that nobody waits, and a second `Resume` does not return.
  pub resume_immediately-delivers :
      (h : H) (v w : T) (r : Immediacy T H)
      → (r' : Immediacy T H) × (resume_immediately v (suspend_immediately h r) ≡ some (r', h))
        × (result_immediately r' ≡ some v)
        × (ready_immediately r' ≡ false)
        × (resume_immediately w r' ≡ none)
  unfolding resume_immediately suspend_immediately result_immediately ready_immediately
  resume_immediately-delivers h v w r = (
    record { waiter_available = false; handle = none; return_value = some v },
    refl,
    refl,
    refl,
    refl,
  )

module _ {H : Type 0} where
  -- A coroutine that ends without a value resumes one that waits for its end behind those that
  -- waited before, and is ready from then on.
  pub return_void-resumes :
      (h : H) (p : VoidPromise H)
      → p.is_finished ≡ false
      → (p' : VoidPromise H) × (return_void (wait_for_end h p)
          ≡ some (p', p.on_return_callbacks ++ h ∷ []))
        × (is_void_ready p ≡ false)
        × (is_void_ready p' ≡ true)
        × (return_void p' ≡ none)
  unfolding return_void wait_for_end is_void_ready
  return_void-resumes h p fresh = (
    record {
      is_finished = true;
      on_return_callbacks = p.on_return_callbacks ++ h ∷ [];
      finished = true;
    },
    rw fresh refl,
    fresh,
    refl,
    refl,
  )
