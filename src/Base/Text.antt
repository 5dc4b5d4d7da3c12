-- ===== src/Base/Text.antt =====
-- Texts as the lists of their characters, and numbers in print.
use Prim.Native.Char.{code}
use Prim.Native.String.{String}
use Prim.Native.Nat.{ℕ, zero, suc, ◌+◌, ◌-◌, ◌*◌, ◌/◌, ◌%◌, ◌<◌, ◌≤◌}
use mathlib.Core.Path.{◌≡◌, refl, ap, sym, ◌∙◌}
use mathlib.Core.Logic.{inl, inr}
use mathlib.Core.Bool.{true, false, ◌&&◌}
use mathlib.Core.List.{List, [], ◌∷◌, ◌++◌}
use native.Mathlib.Omega.{arith}
use robobus.Base.Tests.{ltb, leb, if◌then◌else◌, Bool-cases}
use robobus.Base.Lists.{All, All-append}

-- `String` has its own `[]` and `∷`.
abbrev pub codes : String → List ℕ
codes String.[] = []
codes (String.◌∷◌ c s) = code c ∷ codes s

-- The digits of a number in base ten, with fuel.
pub digits : ℕ → ℕ → List ℕ
digits zero n = []
digits (suc k) n =
    let rest = digits k (n / 10) in
    if ltb n 10 then (b'0' + n) ∷ [] else rest ++ (b'0' + n % 10) ∷ []

-- `std::to_string`
unfoldable pub to_string : ℕ → List ℕ
unfolding digits
to_string n = digits (suc n) n

abbrev pub IsDigit : ℕ → Type 0
IsDigit c = (b'0' ≤ c) × (c ≤ b'9')

-- The digits in front of a text, and the text behind them.
pub span : List ℕ → List ℕ × List ℕ
span [] = ([], [])
span (c ∷ rest) =
    let (before, behind) = span rest in
    if leb b'0' c && leb c b'9' then (c ∷ before, behind) else ([], c ∷ rest)

pub number_of : ℕ → List ℕ → ℕ
number_of n [] = n
number_of n (c ∷ rest) = number_of (n * 10 + (c - b'0')) rest

number_of-append :
    (n c : ℕ) (xs : List ℕ) → number_of n (xs ++ c ∷ []) ≡ number_of n xs * 10 + (c - b'0')
unfolding number_of
number_of-append n c [] = refl
number_of-append n c (x ∷ xs) = number_of-append (n * 10 + (x - b'0')) c xs

number_of-digits : (k n : ℕ) → n < k → number_of 0 (digits k n) ≡ n
unfolding number_of digits
number_of-digits zero n h = absurd (omega arith)
number_of-digits (suc k) n h = elim (Bool-cases (ltb n 10)) [
  | inl small ↦ rw small (omega arith)
  | inr big ↦ rw big (
      number_of-append 0 (b'0' + n % 10) (digits k (n / 10))
      ∙ ground (arith, number_of-digits k (n / 10)))
]

digits-IsDigit : (k n : ℕ) → All IsDigit (digits k n)
unfolding digits
digits-IsDigit zero n = tt
digits-IsDigit (suc k) n = elim (Bool-cases (ltb n 10)) [
  | inl small ↦ rw small (ground arith)
  | inr big ↦
      rw big (All-append IsDigit (digits k (n / 10)) _ (digits-IsDigit k (n / 10)) (omega arith))
]

pub number_of-to_string : (n : ℕ) → number_of 0 (to_string n) ≡ n
number_of-to_string n = unfold to_string in number_of-digits (suc n) n (omega arith)

span-append :
    (xs : List ℕ) (c : ℕ) (rest : List ℕ)
    → All IsDigit xs
    → (leb b'0' c && leb c b'9') ≡ false
    → span (xs ++ c ∷ rest) ≡ (xs, c ∷ rest)
unfolding span
span-append [] c rest h e = rw e refl
span-append (x ∷ xs) c rest (p, h) e =
    let digit : (leb b'0' x && leb x b'9') ≡ true = ground arith in
    rw (digit, span-append xs c rest h e) refl

-- Two numbers in print, each with a text behind it that begins with the same character and not with
-- a digit, are the same only if the numbers and the texts are.
pub to_string-injective :
    (n m c : ℕ) (s t : List ℕ)
    → (leb b'0' c && leb c b'9') ≡ false
    → to_string n ++ c ∷ s ≡ to_string m ++ c ∷ t
    → (n ≡ m) × (c ∷ s ≡ c ∷ t)
to_string-injective n m c s t e h =
    let a = span-append (to_string n) c s (unfold to_string in digits-IsDigit (suc n) n) e in
    let b = span-append (to_string m) c t (unfold to_string in digits-IsDigit (suc m) m) e in
    let same = sym a ∙ ap span h ∙ b in
    (
      sym (number_of-to_string n)
          ∙ ap (λ (p : List ℕ × List ℕ). number_of 0 p.0) same
          ∙ number_of-to_string m,
      ap (λ (p : List ℕ × List ℕ). p.1) same,
    )
