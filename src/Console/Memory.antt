-- ===== src/Console/Memory.antt =====
-- The two loops of lib/runtime/include/robobus/console/interpreter.hpp that move part of the buffer by
-- one place, on a buffer that is written as the parts that they work on.
use mathlib.Core.List.{append_assoc, reverse-cons, reverse-reverse}
use robobus.Base.{
  ◌>>=◌, sym, ℕ, suc, ◌+◌, ◌-◌, ◌≡◌, refl, arith, some, List, [], ◌∷◌, ◌++◌, length, length-append,
  reverse, length-reverse, get_elem?-append_at, set-append_at, lt→ltb, ◌>>=◌,
}
use robobus.Console.{store, shift_left, shift_right}

store-append_at :
    (xs ys : List ℕ) (y v n : ℕ) → n ≡ length xs → store n v (xs ++ y ∷ ys) ≡ some (xs ++ v ∷ ys)
store-append_at xs ys y v n e =
    rw (lt→ltb n (length (xs ++ y ∷ ys)) (omega (arith, length-append xs (y ∷ ys))))
      (rw (set-append_at xs ys y v n e))

-- What is left in the cell that the text shrinks out of.
pub last_of : ℕ → List ℕ → ℕ
last_of x [] = x
last_of x (y ∷ ys) = last_of y ys

-- Moving `a` one place to the left drops `x`.
pub shift_left-append :
    (a b : List ℕ) (x n : ℕ) (rest : List ℕ)
    → n ≡ suc (length b)
    → shift_left (length a) n (b ++ (x ∷ (a ++ rest))) ≡ some (b ++ (a ++ (last_of x a ∷ rest)))
unfolding shift_left last_of
shift_left-append [] b x n rest e = refl
shift_left-append (y ∷ a) b x n rest e =
    rw
      (
        ← append_assoc b (x ∷ []) (y ∷ (a ++ rest)),
        get_elem?-append_at (b ++ x ∷ []) (a ++ rest) y n (omega (arith, length-append b (x ∷ []))),
        append_assoc b (x ∷ []) (y ∷ (a ++ rest)),
        store-append_at b (y ∷ (a ++ rest)) x y (n - 1) (omega arith),
      )
      (simp append_assoc at (
        shift_left-append a (b ++ y ∷ []) y (suc n) rest (omega (arith, length-append b (y ∷ [])))))

first_of : ℕ → List ℕ → ℕ
first_of r [] = r
first_of r (y ∷ ys) = y

first_of-snoc : (r y : ℕ) (xs : List ℕ) → first_of r (xs ++ y ∷ []) ≡ first_of y xs
unfolding first_of
first_of-snoc r y [] = refl
first_of-snoc r y (x ∷ xs) = refl

-- The loop goes from the end, so the induction is on the moved part from its end.
shift_right-reverse :
    (ra b : List ℕ) (r n : ℕ) (rest : List ℕ)
    → n ≡ length b
    → shift_right (length ra) n (b ++ (reverse ra ++ (r ∷ rest)))
      ≡ some (b ++ (first_of r (reverse ra) ∷ (reverse ra ++ rest)))
unfolding shift_right
shift_right-reverse [] b r n rest e = unfold first_of in refl
shift_right-reverse (y ∷ ra) b r n rest e =
    let a = reverse ra in
    let size : length (b ++ a) ≡ n + length ra =
      omega (arith, length-append b a, length-reverse ra) in
    rw
      (
        reverse-cons y ra,
        append_assoc a (y ∷ []) (r ∷ rest),
        ← append_assoc b a (y ∷ (r ∷ rest)),
        get_elem?-append_at (b ++ a) (r ∷ rest) y (n + length ra) (sym size),
        ← append_assoc (b ++ a) (y ∷ []) (r ∷ rest),
        store-append_at ((b ++ a) ++ y ∷ []) rest r y (n + suc (length ra))
            (omega (arith, length-append (b ++ a) (y ∷ []))),
      )
      (simp (append_assoc, first_of-snoc) (shift_right-reverse ra b y n (y ∷ rest) e))

-- Making room at the front of `a` and writing there inserts.
pub insert-append :
    (a b : List ℕ) (r v n : ℕ) (rest : List ℕ)
    → n ≡ length b
    → (shift_right (length a) n (b ++ (a ++ (r ∷ rest))) >>= λ moved. store n v moved)
      ≡ some (b ++ (v ∷ (a ++ rest)))
insert-append a b r v n rest e =
    rw
      (
        ← reverse-reverse a,
        length-reverse (reverse a),
        shift_right-reverse (reverse a) b r n rest e,
      )
      (store-append_at b (reverse (reverse a) ++ rest) (first_of r (reverse (reverse a))) v n e)
