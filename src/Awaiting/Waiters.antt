-- ===== src/Awaiting/Waiters.antt =====
-- The coroutines that wait for another one, on lib/runtime/include/robobus/coroutine/promise.hpp and
-- coroutine_awaiter.hpp.
use mathlib.Core.List.{append_assoc, append-nil}
use robobus.Base.{◌≡◌, refl, sym, ap, ◌∙◌, true, false, none, some, List, [], ◌∷◌, ◌++◌}
use robobus.Awaiting.{Promise, wait_for, return_value, result_of, wait_all}

module _ {T H : Type 0} where
  wait_all-callbacks :
      (hs : List H) (p : Promise T H)
      → wait_all hs p ≡ record p { on_return_callbacks = p.on_return_callbacks ++ hs }
  unfolding wait_all wait_for
  wait_all-callbacks [] p =
      ap (λ l. record p { on_return_callbacks = l }) (sym (append-nil p.on_return_callbacks))
  wait_all-callbacks (h ∷ hs) p =
      wait_all-callbacks hs (wait_for h p)
      ∙ ap (λ l. record p { on_return_callbacks = l })
          (append_assoc p.on_return_callbacks (h ∷ []) hs)

  -- When a coroutine returns a value, every coroutine that has begun to wait for it is resumed, each
  -- once and in the order in which they began, and finds the value; before that none finds one.
  -- A coroutine that has returned does not return again.
  pub return_value-resumes :
      (hs : List H) (v w : T) (p : Promise T H)
      → p.is_finished ≡ false
      → (p' : Promise T H) × (return_value v (wait_all hs p)
          ≡ some (p', p.on_return_callbacks ++ hs))
        × (result_of (wait_all hs p) ≡ none)
        × (result_of p' ≡ some v)
        × (return_value w p' ≡ none)
  unfolding return_value result_of
  return_value-resumes hs v w p fresh = (
    record {
      is_finished = true;
      on_return_callbacks = p.on_return_callbacks ++ hs;
      content = some v;
    },
    rw (wait_all-callbacks hs p, fresh) refl,
    rw (wait_all-callbacks hs p, fresh) refl,
    refl,
    refl,
  )
