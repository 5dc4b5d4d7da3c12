-- ===== src/Reception/Sample.antt =====
-- A list of node numbers, on which the tests wait for messages.
use native.Mathlib.Decide.{ℕ_discrete}
use robobus.Base.{
  NotIn, ℕ, suc, ◌+◌, ◌<◌, ◌≤◌, ◌≡◌, ◌↔◌, refl, subst, arith, Option, none, some, List, [], ◌∷◌,
  ◌++◌, length, ltb, if◌then◌else◌, Bool-cases, inl, inr,
}
use mathlib.Core.Option.{some-injective}
use robobus.Reception.{LinkedList, SyncRx, without}

abbrev pub sum : List ℕ → ℕ
sum [] = 0
sum (x ∷ xs) = x + sum xs

-- A node that is not in use.
abbrev pub fresh : List ℕ → ℕ
fresh xs = suc (sum xs)

abbrev pub new_back : List ℕ → Option (ℕ × List ℕ)
new_back xs = if ltb (length xs) 4 then some (fresh xs, xs ++ fresh xs ∷ []) else none

pub new_back-none_iff : (xs : List ℕ) → (new_back xs ≡ none) ↔ (4 ≤ length xs)
new_back-none_iff xs = ground arith

pub fresh-NotIn : (n : ℕ) (xs : List ℕ) → sum xs < n → NotIn n xs
fresh-NotIn n [] h = tt
fresh-NotIn n (x ∷ xs) h = (λ e. omega arith, fresh-NotIn n xs (omega arith))

pub new_back-appends :
    (xs : List ℕ) (n : ℕ) (xs' : List ℕ)
    → new_back xs ≡ some (n, xs')
    → (xs' ≡ xs ++ n ∷ []) × NotIn n xs
new_back-appends xs n xs' e = elim (Bool-cases (ltb (length xs) 4)) [
  | inl few ↦
      let smaller : sum xs < fresh xs = omega arith in
      let both : some (fresh xs, xs ++ fresh xs ∷ []) ≡ some (n, xs') = rw few at e in
      subst (λ (r : ℕ × List ℕ). (r.1 ≡ xs ++ r.0 ∷ []) × NotIn r.0 xs) (some-injective _ _ both)
        (refl, fresh-NotIn (fresh xs) xs smaller)
  | inr many ↦ absurd (let nothing = rw many at e in cc)
]

abbrev pub node_list : LinkedList (List ℕ) ℕ
node_list = record {
  same = ℕ_discrete;
  items = λ xs. xs;
  clear = λ xs. [];
  new_back = new_back;
  take_out = without ℕ_discrete;
  clear-items = λ xs. refl;
  new_back-none = new_back-none_iff;
  new_back-items = new_back-appends;
  take_out-items = λ n xs. refl;
}

abbrev pub nobody : {H : Type 0} → SyncRx (List ℕ) ℕ H
nobody = record {
  wait_queue = [];
  opcode = λ n. 0;
  awaiter = λ n. record { packet = none; handle = none };
}
