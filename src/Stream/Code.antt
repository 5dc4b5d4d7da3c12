-- ===== src/Stream/Code.antt =====
-- The codes of a control stream as words and as bytes, on lib/bus/include/robobus/network/cstream.hpp.
use robobus.Base.{ℕ, ◌+◌, ◌*◌, ◌/◌, ◌%◌, ◌^◌, ◌<◌, ◌≡◌, refl, ap, arith, some, bit_and, bit_or}
use robobus.Base.Bits.{bit_xor-lt, bit_or-join, bit_and_byte}
use robobus.Stream.{mix_code}
use robobus.Stream.Control.{control_data, read_word}

-- A code is a word of 32 bits.
abbrev pub IsWord : ℕ → Type 0
IsWord n = n < 2 ^ 32

-- `MixCode` keeps the code within 32 bits.
pub mix_code-IsWord : (code state : ℕ) → IsWord state → IsWord (mix_code code state)
unfolding mix_code
mix_code-IsWord code state h =
    bit_xor-lt 32 ((state * code + code) % 2 ^ 32) (state / 2 ^ 16) (omega arith) (omega arith)

-- A number is joined again from its bytes.
pub join_bytes :
    (n a b c d : ℕ)
    → IsWord n
    → a ≡ n / 2 ^ 24 % 256
    → b ≡ n / 2 ^ 16 % 256
    → c ≡ n / 2 ^ 8 % 256
    → d ≡ n % 256
    → bit_or (bit_or (bit_or (a * 2 ^ 24) (b * 2 ^ 16)) (c * 2 ^ 8)) d ≡ n
join_bytes n a b c d h ha hb hc hd =
    let high = bit_or-join 24 a (a * 2 ^ 24) (b * 2 ^ 16) refl (omega arith) in
    let middle =
      bit_or-join 16 (a * 2 ^ 8 + b) (a * 2 ^ 24 + b * 2 ^ 16) (c * 2 ^ 8) (omega arith)
        (omega arith) in
    let low =
      bit_or-join 8 (a * 2 ^ 16 + b * 2 ^ 8 + c) (a * 2 ^ 24 + b * 2 ^ 16 + c * 2 ^ 8) d
        (omega arith) (omega arith) in
    rw (high, middle, low) (omega arith)

join_word :
    (n : ℕ)
    → IsWord n
    → bit_or
        (bit_or
          (bit_or (bit_and (n / 2 ^ 24) 0xff * 2 ^ 24) (bit_and (n / 2 ^ 16) 0xff * 2 ^ 16))
          (bit_and (n / 2 ^ 8) 0xff * 2 ^ 8))
        (bit_and (n / 2 ^ 0) 0xff)
      ≡ n
join_word n h =
    let last : bit_and (n / 2 ^ 0) 0xff ≡ n % 256 = omega (arith, bit_and_byte (n / 2 ^ 0)) in
    join_bytes n (bit_and (n / 2 ^ 24) 0xff) (bit_and (n / 2 ^ 16) 0xff) (bit_and (n / 2 ^ 8) 0xff)
      (bit_and (n / 2 ^ 0) 0xff) h (bit_and_byte (n / 2 ^ 24)) (bit_and_byte (n / 2 ^ 16))
      (bit_and_byte (n / 2 ^ 8)) last

-- What `LoadRxControlData` reads from the bytes of `ProcessTxControlData` are the two codes that
-- they were made of, as words of 32 bits.
pub read_word-control_data :
    (h_ov h_if : ℕ)
    → IsWord h_ov
    → IsWord h_if
    → (read_word 0 (control_data h_ov h_if) ≡ some h_ov)
      × (read_word 4 (control_data h_ov h_if) ≡ some h_if)
unfolding read_word control_data
read_word-control_data h_ov h_if hv hf = (ap some (join_word h_ov hv), ap some (join_word h_if hf))
