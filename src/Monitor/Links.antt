-- ===== src/Monitor/Links.antt =====
-- Ways along the links of the entries of lib/runtime/include/robobus/monitor/bus.hpp.
use robobus.Base.{
  ℕ, ◌≡◌, ◌≢◌, refl, sym, subst, ◌∙◌, Option, none, some, List, [], ◌∷◌, ◌++◌, ==-refl, ==-ne,
  NotIn, Distinct,
}
use robobus.Monitor.Bus.{write}

-- A way along the links, from one address to another.
abbrev pub Way : (ℕ → Option ℕ) → Option ℕ → List ℕ → Option ℕ → Type 0
Way link p [] q = p ≡ q
Way link p (x ∷ xs) q = (p ≡ some x) × Way link (link x) xs q

abbrev pub last_of : ℕ → List ℕ → ℕ
last_of h [] = h
last_of h (x ∷ xs) = last_of x xs

pub write-other {ℓ} : {V : Type ℓ} (a : ℕ) (v : V) (f : ℕ → V) (b : ℕ) → b ≢ a → write a v f b ≡ f b
write-other a v f b h = rw (==-ne b a h) refl

pub write_self {ℓ} : {V : Type ℓ} (a : ℕ) (v : V) (f : ℕ → V) → write a v f a ≡ v
write_self a v f = rw (==-refl a) refl

-- A way that does not come by an address does not depend on its link.
pub Way-write :
    (link : ℕ → Option ℕ) (a : ℕ) (v p : Option ℕ) (xs : List ℕ) (q : Option ℕ)
    → NotIn a xs
    → Way link p xs q
    → Way (write a v link) p xs q
Way-write link a v p [] q n w = w
Way-write link a v p (x ∷ xs) q (ne, n) (e, w) = (
  e,
  subst (λ t. Way (write a v link) t xs q) (sym (write-other a v link x ne))
      (Way-write link a v (link x) xs q n w),
)

pub Way-append :
    (link : ℕ → Option ℕ) (p : Option ℕ) (xs : List ℕ) (x : ℕ) (ys : List ℕ) (q : Option ℕ)
    → Way link p xs (some x)
    → Way link (link x) ys q
    → Way link p (xs ++ x ∷ ys) q
Way-append link p [] x ys q e w = (e, w)
Way-append link p (y ∷ xs) x ys q (e, v) w = (e, Way-append link (link y) xs x ys q v w)

pub Way-split :
    (link : ℕ → Option ℕ) (p : Option ℕ) (xs : List ℕ) (x : ℕ) (ys : List ℕ) (q : Option ℕ)
    → Way link p (xs ++ x ∷ ys) q
    → Way link p xs (some x) × Way link (link x) ys q
Way-split link p [] x ys q (e, w) = (e, w)
Way-split link p (y ∷ xs) x ys q (e, w) =
    let (front, back) = Way-split link (link y) xs x ys q w in ((e, front), back)

pub last_of-ne : (x y : ℕ) (ys : List ℕ) → NotIn x (y ∷ ys) → last_of y ys ≢ x
last_of-ne x y [] (ne, n) = ne
last_of-ne x y (z ∷ ys) (ne, n) = last_of-ne x z ys n

pub last_of-append : (x a : ℕ) (xs : List ℕ) → last_of x (xs ++ a ∷ []) ≡ a
last_of-append x a [] = refl
last_of-append x a (y ∷ xs) = last_of-append y a xs

pub last_of-ne_other : (b x : ℕ) (xs : List ℕ) → NotIn b (x ∷ xs) → b ≢ last_of x xs
last_of-ne_other b x xs n e = last_of-ne b x xs n (sym e)

pub Way-extend :
    (link : ℕ → Option ℕ) (a : ℕ) (p : Option ℕ) (x : ℕ) (xs : List ℕ)
    → Way link p (x ∷ xs) none
    → Distinct (x ∷ xs)
    → NotIn a (x ∷ xs)
    → link a ≡ none
    → Way (write (last_of x xs) (some a) link) p (x ∷ xs ++ a ∷ []) none
Way-extend link a p x [] (e, f) d (ne, _) loose =
    (e, (write_self x (some a) link, write-other x (some a) link a (λ h. ne (sym h)) ∙ loose))
Way-extend link a p x (y ∷ ys) (e, w) (new, d) (ne, n) loose = (
  e,
  subst (λ t. Way (write (last_of y ys) (some a) link) t (y ∷ ys ++ a ∷ []) none)
      (sym (write-other (last_of y ys) (some a) link x (last_of-ne_other x y ys new)))
      (Way-extend link a (link x) y ys w d n loose),
)
