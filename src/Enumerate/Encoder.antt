-- ===== src/Enumerate/Encoder.antt =====
-- `CollectingEncoder` of lib/bus/include/robobus/network/interface/enumerate_interface.hpp: values
-- that were sent get the number of their place in a list, as a byte.
use mathlib.Core.Option.{some-injective}
use mathlib.Core.Logic.{ite, if_pos, if_neg}
use robobus.Base.{
  ℕ, suc, zero, ◌+◌, ◌-◌, ◌%◌, ◌<◌, ◌≤◌, ◌≡◌, ◌≢◌, refl, sym, ap, ◌∙◌, ◌⊎◌, inl, inr, arith, Option,
  none, some, List, [], ◌∷◌, ◌++◌, length, length-append, get_elem?, if◌then◌else◌, leb,
  Option-cases, get_elem?-append_at,
}

module _ {T : Type 0} (same : Discrete T) where
  -- The loop of `Encode`, from the place `i` on.
  unfoldable pub find_from : ℕ → T → List T → Option ℕ
  find_from i value [] = none
  find_from i value (x ∷ xs) = ite (same x value) (some i) (find_from (suc i) value xs)

  unfoldable pub encode : T → List T → List T × ℕ
  unfolding find_from
  encode value collected = elim (find_from 0 value collected) [
    | some i ↦ (collected, i % 256)
    | none ↦ (collected ++ value ∷ [], (length (collected ++ value ∷ []) - 1) % 256)
  ]

-- `operator[]`
unfoldable pub decode {ℓ} : {T : Type ℓ} → ℕ → List T → Option T
decode index collected = if leb (length collected) index then none else get_elem? collected index

pub decode-get_elem? {ℓ} : {T : Type ℓ} (k : ℕ) (xs : List T) → decode k xs ≡ get_elem? xs k
unfolding decode
decode-get_elem? k [] = ground arith
decode-get_elem? zero (x ∷ xs) = ground arith
decode-get_elem? (suc k) (x ∷ xs) = ground (arith, decode-get_elem? k xs)

get_elem?-lt {ℓ} :
    {T : Type ℓ} (xs : List T) (k : ℕ) {w : T} → get_elem? xs k ≡ some w → k < length xs
get_elem?-lt [] k e = cc
get_elem?-lt (x ∷ xs) zero e = omega arith
get_elem?-lt (x ∷ xs) (suc k) e = omega (arith, get_elem?-lt xs k e)

get_elem?-append_lt {ℓ} :
    {T : Type ℓ} (xs ys : List T) (k : ℕ) → k < length xs → get_elem? (xs ++ ys) k ≡ get_elem? xs k
get_elem?-append_lt [] ys k h = absurd (omega arith)
get_elem?-append_lt (x ∷ xs) ys zero h = refl
get_elem?-append_lt (x ∷ xs) ys (suc k) h = get_elem?-append_lt xs ys k (omega arith)

get_elem?-append_left {ℓ} :
    {T : Type ℓ} (xs ys : List T) (k : ℕ) {w : T}
    → get_elem? xs k ≡ some w
    → get_elem? (xs ++ ys) k ≡ some w
get_elem?-append_left [] ys k e = cc
get_elem?-append_left (x ∷ xs) ys zero e = e
get_elem?-append_left (x ∷ xs) ys (suc k) e = get_elem?-append_left xs ys k e

module _ {T : Type 0} (same : Discrete T) where
  find_from-found :
      (i : ℕ) (value : T) (xs : List T) (j : ℕ)
      → find_from same i value xs ≡ some j
      → (k : ℕ) × (j ≡ i + k) × (get_elem? xs k ≡ some value)
  unfolding find_from
  find_from-found i value [] j e = cc
  find_from-found i value (x ∷ xs) j e = elim (same x value) [
    | yes hit ↦
        let at : some i ≡ some j = rw (if_pos _ hit) at e in
        (0, omega (arith, some-injective _ _ at), ap some hit)
    | no miss ↦
        let (k, at, here) = find_from-found (suc i) value xs j (rw (if_neg _ miss) at e) in
        (suc k, omega arith, here)
  ]

  find_from-none :
      (i : ℕ) (value : T) (xs : List T) (k : ℕ)
      → find_from same i value xs ≡ none
      → get_elem? xs k ≢ some value
  unfolding find_from
  find_from-none i value [] k e = λ h. cc
  find_from-none i value (x ∷ xs) zero e = ground arith
  find_from-none i value (x ∷ xs) (suc k) e = ground (arith, find_from-none (suc i) value xs k)

  pub encode-cases :
      (value : T) (collected : List T)
      → ((k : ℕ) × (get_elem? collected k ≡ some value)
          × (encode same value collected ≡ (collected, k % 256)))
        ⊎ ((find_from same 0 value collected ≡ none)
            × (encode same value collected ≡ (collected ++ value ∷ [], length collected % 256)))
  unfolding encode
  encode-cases value collected = elim (Option-cases (find_from same 0 value collected)) [
    | inl e ↦
        let size : length (collected ++ value ∷ []) - 1 ≡ length collected =
          omega (arith, length-append collected (value ∷ [])) in
        inr (e, rw (e, encode, size) refl)
    | inr (j, e) ↦
        let (k, at, here) = find_from-found 0 value collected j e in
        let same_place : j ≡ k = omega arith in inl (k, here, rw (e, encode, same_place) refl)
  ]

  -- What is encoded is decoded again, as long as there is room for a byte's worth of values.
  pub decode-encode :
      (value : T) (collected : List T)
      → length collected < 256
      → decode (encode same value collected).1 (encode same value collected).0 ≡ some value
  decode-encode value collected small = elim (encode-cases value collected) [
    | inl (k, here, e) ↦
        let at : k % 256 ≡ k = omega (arith, get_elem?-lt collected k here) in
        rw (e, at, decode-get_elem?) here
    | inr (new, e) ↦
        let at : length collected % 256 ≡ length collected = omega arith in
        rw (e, at, decode-get_elem?)
          (get_elem?-append_at collected [] value (length collected) refl)
  ]

  -- A number once given out keeps its meaning.
  pub decode-encode_stable :
      (k : ℕ) (value w : T) (collected : List T)
      → decode k collected ≡ some w
      → decode k (encode same value collected).0 ≡ some w
  decode-encode_stable k value w collected h = elim (encode-cases value collected) [
    | inl (j, here, e) ↦ rw e h
    | inr (new, e) ↦
        rw (e, decode-get_elem?)
          (get_elem?-append_left collected (value ∷ []) k (rw decode-get_elem? at h))
  ]

  -- Encoding adds at most one value, and none the second time.
  pub length-encode :
      (value : T) (collected : List T)
      → length (encode same value collected).0 ≤ length collected + 1
  length-encode value collected = elim (encode-cases value collected) [
    | inl (j, here, e) ↦ rw e (omega arith)
    | inr (new, e) ↦ rw e (omega (arith, length-append collected (value ∷ [])))
  ]

  -- A value that is not there yet goes to the end.
  pub encode-new :
      (value : T) (collected : List T)
      → ((k : ℕ) → get_elem? collected k ≢ some value)
      → (encode same value collected).0 ≡ collected ++ value ∷ []
  encode-new value collected new = elim (encode-cases value collected) [
    | inl (k, here, e) ↦ absurd (new k here)
    | inr (_, e) ↦ rw e refl
  ]

  -- With 256 values collected, a new one gets the number of the first: it is never decoded, and
  -- its number stands for another value.
  pub encode_wraps :
      (value : T) (collected : List T)
      → length collected ≡ 256
      → ((k : ℕ) → get_elem? collected k ≢ some value)
      → ((encode same value collected).1 ≡ 0)
        × (decode 0 (encode same value collected).0 ≢ some value)
  encode_wraps value collected full new = elim (encode-cases value collected) [
    | inl (k, here, e) ↦ absurd (new k here)
    | inr (_, e) ↦
        let at : length collected % 256 ≡ 0 = omega arith in
        rw (e, at, decode-get_elem?)
          (refl, λ h. new 0 (sym (get_elem?-append_lt collected (value ∷ []) 0 (omega arith)) ∙ h))
  ]
