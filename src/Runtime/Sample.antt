-- ===== src/Runtime/Sample.antt =====
-- A queue made of a list and a clock of numbers, on which the tests run the loop.
use robobus.Base.{
  ℕ, ◌<◌, ◌≡◌, ◌↔◌, refl, arith, Bool, true, false, not, List, [], ◌∷◌, ◌++◌, length, ltb,
}
use robobus.Runtime.{ResumeRequest, Queue, Loop}
pub use robobus.Runtime.Time.{ticks}

abbrev pub Request : Type 0
Request = ResumeRequest ℕ ℕ

abbrev pub request : ℕ → ℕ → Request
request time coroutine = record { time_point = time; coroutine = coroutine }

module _ {R : Type 0} where
  abbrev pub is_empty : List R → Bool
  is_empty [] = true
  is_empty (r ∷ rest) = false

  abbrev pub pop_list : R → List R → R × List R
  pop_list r [] = (r, [])
  pop_list _ (r ∷ rest) = (r, rest)

  pub is_empty_iff : (q : List R) → (is_empty q ≡ true) ↔ (q ≡ [])
  is_empty_iff [] = (λ _. refl, λ _. refl)
  is_empty_iff (r ∷ rest) = (λ h. cc, λ h. cc)

  pub pop_list-cons :
      (d : R) (q : List R) (r : R) (rest : List R)
      → q ≡ r ∷ rest
      → ((pop_list d q).0 ≡ r) × ((pop_list d q).1 ≡ rest)
  pop_list-cons d q r rest e = rw e (refl, refl)

  pub full_iff : (q : List R) → (not (ltb (length q) 64) ≡ false) ↔ (length q < 64)
  full_iff q = ground arith

  -- The argument is what comes out of an empty queue.
  abbrev pub list_queue_of : R → Queue (List R) R
  list_queue_of d = record {
    items = λ q. q;
    empty = is_empty;
    full = λ q. not (ltb (length q) 64);
    size = λ q. length q;
    pop = pop_list d;
    push = λ r q. q ++ r ∷ [];
    empty-items = is_empty_iff;
    full-items = full_iff;
    size-items = λ q. refl;
    pop-items = pop_list-cons d;
    push-items = λ r q h. refl;
  }

abbrev pub list_queue : Queue (List Request) Request
list_queue = list_queue_of (request 0 0)

abbrev pub busy_loop : Loop (List Request)
busy_loop = record {
  resume_list = request 5 1 ∷ request 20 2 ∷ request 9 3 ∷ [];
  task_finished = false;
}
