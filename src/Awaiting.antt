-- ===== src/Awaiting.antt =====
-- Awaiters and promises of lib/runtime/include/robobus: runtime/lazy_resumer.hpp, coroutine/
-- immediacy_awaiter.hpp, coroutine/promise.hpp and coroutine/coroutine_awaiter.hpp. A coroutine
-- handle is a value of any type, and a null handle is `none`; to resume one is left to the caller.
-- Where the source goes into an endless loop or stops at a breakpoint, or reads an empty value, the
-- result is `none`.
pub mod Lazy
pub mod Waiters
pub mod Spot
mod Tests
use robobus.Base.{
  Bool, true, false, not, Option, none, some, List, [], ◌∷◌, ◌++◌, if◌then◌else◌, ◌>>=◌,
}
use robobus.Runtime.{ResumeRequest, Queue, Clock, Loop, schedule_resume_instantly}

-- `LazyResumerAwaiter`; of `instant_resumer`, whether it is set.
pub record LazyResumer (T H : Type 0) : Type 0 where
  pub waiter_available : Bool
  pub handle : Option H
  pub value : Option T
  pub has_resumer : Bool

module _ {T H : Type 0} where
  abbrev pub new_lazy_resumer : LazyResumer T H
  new_lazy_resumer = record {
    waiter_available = false;
    handle = none;
    value = none;
    has_resumer = false;
  }

  unfoldable pub associate_loop : LazyResumer T H → LazyResumer T H
  associate_loop r = record r { has_resumer = true }

  unfoldable pub await_ready : LazyResumer T H → Bool
  await_ready r = r.waiter_available

  unfoldable pub await_suspend : H → LazyResumer T H → LazyResumer T H
  await_suspend h r = record r { waiter_available = true; handle = some h }

  unfoldable pub await_resume : LazyResumer T H → Option T
  await_resume r = r.value

  -- `Resume(value)`, on the loop that was associated.
  module _ {Q P : Type 0} (queue : Queue Q (ResumeRequest P H)) (clock : Clock P) where
    unfoldable pub resume_lazily :
        P → T → LazyResumer T H → Loop Q → Option (LazyResumer T H × Loop Q)
    resume_lazily now v r loop =
        if not r.waiter_available
        then none
        else if not r.has_resumer
        then none
        else (r.handle >>= λ h. some (
          record r { waiter_available = false; handle = none; value = some v },
          schedule_resume_instantly queue clock now h loop,
        ))

    -- `Resume(loop, value)`
    unfoldable pub resume_on : P → T → LazyResumer T H → Loop Q → Option (LazyResumer T H × Loop Q)
    resume_on now v r loop =
        if not r.waiter_available
        then none
        else (r.handle >>= λ h. some (
          record r { waiter_available = false; handle = none; value = some v },
          schedule_resume_instantly queue clock now h loop,
        ))

-- `ImmediacyAwaiter`: `Resume` gives the coroutine that is resumed on the spot.
pub record Immediacy (T H : Type 0) : Type 0 where
  pub waiter_available : Bool
  pub handle : Option H
  pub return_value : Option T

module _ {T H : Type 0} where
  unfoldable pub ready_immediately : Immediacy T H → Bool
  ready_immediately r = r.waiter_available

  unfoldable pub result_immediately : Immediacy T H → Option T
  result_immediately r = r.return_value

  unfoldable pub suspend_immediately : H → Immediacy T H → Immediacy T H
  suspend_immediately h r = record r { waiter_available = true; handle = some h }

  unfoldable pub resume_immediately : T → Immediacy T H → Option (Immediacy T H × H)
  resume_immediately v r =
      if not r.waiter_available
      then none
      else (r.handle >>= λ h.
          some (record { waiter_available = false; handle = none; return_value = some v }, h))

-- `BasePromise` and `Promise`; each callback resumes one coroutine that waits.
pub record Promise (T H : Type 0) : Type 0 where
  pub is_finished : Bool
  pub on_return_callbacks : List H
  pub content : Option T

module _ {T H : Type 0} where
  abbrev pub new_promise : Promise T H
  new_promise = record { is_finished = false; on_return_callbacks = []; content = none }

  -- `CoroutineAwaiter::await_ready`
  unfoldable pub is_ready : Promise T H → Bool
  is_ready p = p.is_finished

  -- `CoroutineAwaiter::await_suspend`, by `AddOnReturnCallback`.
  unfoldable pub wait_for : H → Promise T H → Promise T H
  wait_for h p = record p { on_return_callbacks = p.on_return_callbacks ++ h ∷ [] }

  -- `return_value` and `Return`, with the coroutines that are resumed, in order.
  unfoldable pub return_value : T → Promise T H → Option (Promise T H × List H)
  return_value v p =
      if p.is_finished
      then none
      else some (record p { is_finished = true; content = some v }, p.on_return_callbacks)

  -- `CoroutineAwaiter::await_resume`
  unfoldable pub result_of : Promise T H → Option T
  result_of p = if p.is_finished then p.content else none

  unfoldable pub wait_all : List H → Promise T H → Promise T H
  wait_all [] p = p
  wait_all (h ∷ rest) p = wait_all rest (wait_for h p)

-- `Promise<void>`: whether it was told to return, in place of a value.
pub record VoidPromise (H : Type 0) : Type 0 where
  pub is_finished : Bool
  pub on_return_callbacks : List H
  pub finished : Bool

module _ {H : Type 0} where
  abbrev pub new_void_promise : VoidPromise H
  new_void_promise = record { is_finished = false; on_return_callbacks = []; finished = false }

  unfoldable pub is_void_ready : VoidPromise H → Bool
  is_void_ready p = p.is_finished

  unfoldable pub wait_for_end : H → VoidPromise H → VoidPromise H
  wait_for_end h p = record p { on_return_callbacks = p.on_return_callbacks ++ h ∷ [] }

  -- `return_void` and `Return`.
  unfoldable pub return_void : VoidPromise H → Option (VoidPromise H × List H)
  return_void p =
      if p.is_finished
      then none
      else some (record p { is_finished = true; finished = true }, p.on_return_callbacks)
