-- ===== src/Stream/Short.antt =====
-- Control data that `LoadRxControlData` of lib/bus/include/robobus/network/cstream.hpp reads past its
-- end, among the calls of a stream.
use robobus.Base.{
  ℕ, zero, suc, ◌+◌, ◌<◌, ◌≤◌, ◌≡◌, refl, sym, ◌∙◌, arith, Bool, true, false, Option, none, some,
  List, [], ◌∷◌, length, get_elem?, leb, ◌&&◌, ◌>>=◌, All, Bool-cases, Option-cases, inl, inr,
}
use robobus.Wire.Parts.{IsByte}
use robobus.Stream.{Timer}
use robobus.Stream.Control.{ControlStream, read_word, load_rx_control_data}
use robobus.Stream.Calls.{Call, puts, feeds, loads, waits, AllLoadable, call, run_calls}

-- The control data of a call, if it loads some, is eight bytes at least.
abbrev pub is_long : {F D : Type 0} → Call F D → Bool
is_long (loads payload) = leb 8 (length payload)
is_long other = true

unfoldable pub all_long : {F D : Type 0} → List (Call F D) → Bool
all_long [] = true
all_long (c ∷ cs) = is_long c && all_long cs

-- What is loaded is made of bytes.
abbrev pub AllBytes : {F D : Type 0} → List (Call F D) → Type 0
AllBytes [] = Unit
AllBytes (loads payload ∷ rest) = All IsByte payload × AllBytes rest
AllBytes (puts d ∷ rest) = AllBytes rest
AllBytes (feeds d ∷ rest) = AllBytes rest
AllBytes (waits delta ∷ rest) = AllBytes rest

pub AllBytes-AllLoadable :
    {F D : Type 0} (cs : List (Call F D)) → AllBytes cs → all_long cs ≡ true → AllLoadable cs
unfolding all_long
AllBytes-AllLoadable [] h e = tt
AllBytes-AllLoadable (puts d ∷ cs) h e = AllBytes-AllLoadable cs h e
AllBytes-AllLoadable (feeds d ∷ cs) h e = AllBytes-AllLoadable cs h e
AllBytes-AllLoadable (waits delta ∷ cs) h e = AllBytes-AllLoadable cs h e
AllBytes-AllLoadable (loads payload ∷ cs) (bytes, h) e =
    elim (Bool-cases (leb 8 (length payload))) [
      | inl long ↦
          (record { bytes = bytes; size = ground arith }, AllBytes-AllLoadable cs h (rw long at e))
      | inr short ↦ absurd (let no = rw short at e in cc)
    ]

get_elem?_past : (xs : List ℕ) (i : ℕ) → length xs ≤ i → get_elem? xs i ≡ none
get_elem?_past [] i h = refl
get_elem?_past (x ∷ xs) zero h = absurd (omega arith)
get_elem?_past (x ∷ xs) (suc i) h = get_elem?_past xs i (omega arith)

>>=_none :
    {A B : Type 0} (m : Option A) (f : A → Option B) → ((a : A) → f a ≡ none) → (m >>= f) ≡ none
>>=_none none f h = refl
>>=_none (some a) f h = h a

read_word-short : (payload : List ℕ) → length payload < 8 → read_word 4 payload ≡ none
unfolding read_word
read_word-short payload h =
    let past = get_elem?_past payload (4 + 3) (omega arith) in
    >>=_none (get_elem? payload 4) _ (λ a.
      >>=_none (get_elem? payload (4 + 1)) _
        (λ b. >>=_none (get_elem? payload (4 + 2)) _ (λ c. rw past refl)))

module _ {F D : Type 0} (t : Timer F) (crc : D → ℕ) where
  load_rx_control_data-short :
      (payload : List ℕ) (s : ControlStream F D)
      → length payload < 8
      → load_rx_control_data t crc payload s ≡ none
  unfolding load_rx_control_data
  load_rx_control_data-short payload s h = elim (Option-cases (read_word 0 payload)) [
    | inl e ↦ rw e refl
    | inr (w, e) ↦ rw (e, read_word-short payload h) refl
  ]

  call-short : (c : Call F D) (s : ControlStream F D) → is_long c ≡ false → call t crc c s ≡ none
  unfolding call
  call-short (loads payload) s h = load_rx_control_data-short payload s (ground arith)
  call-short (puts d) s h = cc
  call-short (feeds d) s h = cc
  call-short (waits delta) s h = cc

  pub run_calls-short :
      (cs : List (Call F D)) (s : ControlStream F D)
      → all_long cs ≡ false
      → run_calls t crc cs s ≡ none
  unfolding run_calls all_long
  run_calls-short [] s h = cc
  run_calls-short (c ∷ cs) s h = elim (Option-cases (call t crc c s)) [
    | inl stuck ↦ rw stuck refl
    | inr (r, done) ↦ elim (Bool-cases (is_long c)) [
      | inl long ↦
          let rest : all_long cs ≡ false = rw long at h in
          rw (done, run_calls-short cs r.0 rest) refl
      | inr short ↦ absurd (let no = sym (call-short c s short) ∙ done in cc)
    ]
  ]
