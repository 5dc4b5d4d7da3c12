-- ===== src/Runtime/Wakes.antt =====
-- How often the coroutines of lib/runtime/include/robobus/runtime/loop.hpp that sleep, by sleep.hpp,
-- are to be resumed.
use robobus.Base.{
  ℕ, suc, ◌+◌, ◌≤◌, ◌≡◌, refl, ap, arith, List, [], ◌∷◌, ◌++◌, length, length-append, ◌==◌,
  if◌then◌else◌,
}
use robobus.Runtime.{ResumeRequest}
use robobus.Runtime.Run.{Sleeper}

abbrev pub Request : Type 0
Request = ResumeRequest ℕ Sleeper

-- What is asked for when a coroutine is resumed at a time.
unfoldable pub again_one : ℕ → ℕ → List ℕ → List Request
again_one now name [] = []
again_one now name (duration ∷ naps) =
    record { time_point = now + duration; coroutine = record { name = name; naps = naps } } ∷ []

unfoldable pub again : ℕ → List Sleeper → List Request
again now [] = []
again now (s ∷ rest) = again_one now s.name s.naps ++ again now rest

unfoldable pub woken : ℕ → List Sleeper → List (ℕ × ℕ)
woken now [] = []
woken now (s ∷ rest) = (s.name, now) ∷ woken now rest

unfoldable pub owners : List Request → List Sleeper
owners [] = []
owners (r ∷ rest) = r.coroutine ∷ owners rest

-- How often a coroutine of a name is to be resumed: now, and after each nap.
unfoldable pub wakes : ℕ → List Sleeper → ℕ
wakes n [] = 0
wakes n (s ∷ rest) = (if s.name == n then suc (length s.naps) else 0) + wakes n rest

unfoldable pub times_in : ℕ → List (ℕ × ℕ) → ℕ
times_in n [] = 0
times_in n ((m, t) ∷ rest) = (if m == n then 1 else 0) + times_in n rest

unfoldable pub total : List Sleeper → ℕ
total [] = 0
total (s ∷ rest) = suc (length s.naps) + total rest

pub times_in-append :
    (n : ℕ) (xs ys : List (ℕ × ℕ)) → times_in n (xs ++ ys) ≡ times_in n xs + times_in n ys
unfolding times_in
times_in-append n [] ys = omega arith
times_in-append n ((m, t) ∷ xs) ys = omega (arith, times_in-append n xs ys)

pub owners-append : (xs ys : List Request) → owners (xs ++ ys) ≡ owners xs ++ owners ys
unfolding owners
owners-append [] ys = refl
owners-append (x ∷ xs) ys = ap (x.coroutine ∷◌) (owners-append xs ys)

pub wakes-append : (n : ℕ) (xs ys : List Sleeper) → wakes n (xs ++ ys) ≡ wakes n xs + wakes n ys
unfolding wakes
wakes-append n [] ys = omega arith
wakes-append n (x ∷ xs) ys = omega (arith, wakes-append n xs ys)

pub total-append : (xs ys : List Sleeper) → total (xs ++ ys) ≡ total xs + total ys
unfolding total
total-append [] ys = omega arith
total-append (x ∷ xs) ys = omega (arith, total-append xs ys)

-- A coroutine that is resumed has one time less to go.
again_one-wakes :
    (n now name : ℕ) (naps : List ℕ)
    → wakes n (owners (again_one now name naps)) + (if name == n then 1 else 0)
      ≡ (if name == n then suc (length naps) else 0)
unfolding wakes owners again_one
again_one-wakes n now name [] = omega arith
again_one-wakes n now name (d ∷ naps) = ground arith

again_one-total :
    (now name : ℕ) (naps : List ℕ) → total (owners (again_one now name naps)) ≡ length naps
unfolding total owners again_one
again_one-total now name [] = refl
again_one-total now name (d ∷ naps) = omega arith

pub again-wakes :
    (n now : ℕ) (hs : List Sleeper)
    → wakes n (owners (again now hs)) + times_in n (woken now hs) ≡ wakes n hs
unfolding wakes owners again woken times_in
again-wakes n now [] = omega arith
again-wakes n now (s ∷ hs) = rw (owners-append (again_one now s.name s.naps) (again now hs)) (
    omega (
      arith,
      wakes-append n (owners (again_one now s.name s.naps)) (owners (again now hs)),
      again_one-wakes n now s.name s.naps,
      again-wakes n now hs,
    ))

pub again-total :
    (now : ℕ) (hs : List Sleeper) → total (owners (again now hs)) + length hs ≡ total hs
unfolding total owners again
again-total now [] = omega arith
again-total now (s ∷ hs) = rw (owners-append (again_one now s.name s.naps) (again now hs)) (
    omega (
      arith,
      total-append (owners (again_one now s.name s.naps)) (owners (again now hs)),
      again_one-total now s.name s.naps,
      again-total now hs,
    ))

pub length-again_one : (now name : ℕ) (naps : List ℕ) → length (again_one now name naps) ≤ 1
unfolding again_one
length-again_one now name [] = omega arith
length-again_one now name (d ∷ naps) = omega arith

pub length-again : (now : ℕ) (hs : List Sleeper) → length (again now hs) ≤ length hs
unfolding again
length-again now [] = omega arith
length-again now (s ∷ hs) = omega (
  arith,
  length-append (again_one now s.name s.naps) (again now hs),
  length-again_one now s.name s.naps,
  length-again now hs,
)
