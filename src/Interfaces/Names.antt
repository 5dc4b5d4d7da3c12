-- ===== src/Interfaces/Names.antt =====
-- The name of lib/bus/include/robobus/network/interface/random_name_interface.hpp.
use robobus.Base.{
  ℕ, zero, suc, ◌+◌, ◌%◌, ◌<◌, ◌≤◌, ◌≡◌, refl, arith, List, [], ◌∷◌, ◌++◌, length, length-append,
}
use robobus.Interfaces.{push_letters, get_name}

-- Capital letters only.
abbrev pub AreLetters : List ℕ → Type 0
AreLetters [] = Unit {0}
AreLetters (ch ∷ rest) = (b'A' ≤ ch) × (ch ≤ b'Z') × AreLetters rest

AreLetters-append : (xs ys : List ℕ) → AreLetters xs → AreLetters ys → AreLetters (xs ++ ys)
AreLetters-append [] ys hx hy = hy
AreLetters-append (x ∷ xs) ys (low, high, hx) hy = (low, high, AreLetters-append xs ys hx hy)

push_letters-AreLetters :
    (rounds : ℕ) (random : ℕ → ℕ) (name : List ℕ)
    → AreLetters name
    → AreLetters (push_letters rounds random name)
      × (length (push_letters rounds random name) ≡ length name + rounds)
unfolding push_letters
push_letters-AreLetters zero random name h = (h, omega arith)
push_letters-AreLetters (suc rounds) random name h =
    let letter : List ℕ = (b'A' + random 0 % 26) ∷ [] in
    let (letters, size) =
      push_letters-AreLetters rounds (λ k. random (suc k)) (name ++ letter)
        (AreLetters-append name letter h (omega arith, omega arith, tt)) in
    (letters, omega (arith, length-append name letter))

get_name-stable : (random : ℕ → ℕ) (name : List ℕ) → 0 < length name → get_name random name ≡ name
unfolding get_name
get_name-stable random [] h = absurd (omega arith)
get_name-stable random (ch ∷ name) h = refl

-- The first call of `GetName` makes a name of eight capital letters, whatever the random bytes are;
-- every later call returns the same name.
pub get_name-letters :
    (random random' : ℕ → ℕ)
    → AreLetters (get_name random [])
      × (length (get_name random []) ≡ 8)
      × (get_name random' (get_name random []) ≡ get_name random [])
unfolding get_name
get_name-letters random random' =
    let (letters, size) = push_letters-AreLetters 8 random [] tt in
    (letters, omega arith, get_name-stable random' (push_letters 8 random []) (omega arith))
