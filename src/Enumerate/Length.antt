-- ===== src/Enumerate/Length.antt =====
-- How the length of a string goes over in bytes, on `SendString` and `QueryStr` of
-- lib/bus/include/robobus/network/interface/enumerate_interface.hpp.
use mathlib.Core.List.{append_assoc, append-nil}
use native.Mathlib.Numerals.{towards_suc}
use native.Mathlib.Nat.{pow-suc}
use robobus.Base.{
  lt→ltb, sym, ◌∙◌, ℕ, zero, suc, ◌+◌, ◌*◌, ◌/◌, ◌%◌, ◌^◌, ◌<◌, ◌≤◌, ◌≡◌, ap, arith, some, List, [],
  ◌∷◌, ◌++◌, length, length-append, if◌then◌else◌, ltb, Bool-cases, inl, inr,
}
use robobus.Base.Bits.{bit_and_byte, bit_or-under}
use robobus.Enumerate.Server.{push_length}
use robobus.Enumerate.Client.{join_length, read_length}

-- The bytes of a number, the lowest first, `k` at most.
unfoldable pub length_bytes : ℕ → ℕ → List ℕ
length_bytes zero n = []
length_bytes (suc k) n =
    let rest = length_bytes k (n / 256) in if ltb 0 n then (n % 256) ∷ rest else []

pub push_length-eq :
    (k n : ℕ) (buffer : List ℕ)
    → length buffer + k ≤ 8
    → push_length k n buffer ≡ buffer ++ length_bytes k n
unfolding push_length length_bytes
push_length-eq zero n buffer h = sym (append-nil buffer)
push_length-eq (suc k) n buffer h = elim (Bool-cases (ltb 0 n)) [
  | inl more ↦
      rw (more, lt→ltb (length buffer) 8 (omega arith), bit_and_byte n)
        (push_length-eq k (n / 256) (buffer ++ (n % 256) ∷ [])
            (omega (arith, length-append buffer ((n % 256) ∷ [])))
          ∙ append_assoc buffer ((n % 256) ∷ []) (length_bytes k (n / 256)))
  | inr done ↦ rw done (sym (append-nil buffer))
]

split_byte : (n p : ℕ) → n * p ≡ (n / 256) * (256 * p) + (n % 256) * p
split_byte n p =
    let e : n ≡ (n / 256) * 256 + n % 256 = omega arith in omega (arith, ap (λ (t : ℕ). t * p) e)

pow_byte : (k : ℕ) → 2 ^ (k + 8) ≡ 256 * 2 ^ k
pow_byte k = simp towards_suc (omega (arith, pow-suc 2 k))

field-lt : (r p acc : ℕ) → r < 256 → acc < p → r * p + acc < 256 * p
field-lt r p acc hr ha = grind arith

join_length-bytes :
    (k shift n acc : ℕ)
    → acc < 2 ^ shift
    → n < 256 ^ k
    → join_length shift (length_bytes k n) acc ≡ n * 2 ^ shift + acc
unfolding join_length length_bytes
join_length-bytes zero shift zero acc ha hn = omega arith
join_length-bytes zero shift (suc n) acc ha hn = absurd (omega arith)
join_length-bytes (suc k) shift zero acc ha hn = omega arith
join_length-bytes (suc k) shift (suc n) acc ha hn =
    rw
      (
        lt→ltb 0 (suc n) (omega arith),
        join_length,
        bit_or-under shift (suc n % 256) acc ha,
        join_length-bytes k (shift + 8) (suc n / 256) ((suc n % 256) * 2 ^ shift + acc)
            (rw (pow_byte shift) (field-lt (suc n % 256) (2 ^ shift) acc (omega arith) ha))
            (omega (arith, pow-suc 256 k)),
      )
      (omega
        (arith, split_byte (suc n) (2 ^ shift), ap (λ (t : ℕ). (suc n / 256) * t) (pow_byte shift)))

length-length_bytes : (k m n : ℕ) → n < 256 ^ m → length (length_bytes k n) ≤ m
unfolding length_bytes
length-length_bytes zero m n h = omega arith
length-length_bytes (suc k) m zero h = omega arith
length-length_bytes (suc k) zero (suc n) h = absurd (omega arith)
length-length_bytes (suc k) (suc m) (suc n) h =
    ground (arith, length-length_bytes k m (suc n / 256) (omega (arith, pow-suc 256 m)))

-- A length below 2 ^ 31 goes over whole in the bytes that `SendString` makes of it.
pub read_length-bytes : (n : ℕ) → n < 2 ^ 31 → read_length (length_bytes 5 n) ≡ some n
unfolding read_length
read_length-bytes n h = ground (
  arith,
  length-length_bytes 5 4 n (omega arith),
  join_length-bytes 5 0 n 0 (omega arith) (omega arith),
)
