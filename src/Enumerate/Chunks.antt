-- ===== src/Enumerate/Chunks.antt =====
-- The pieces of a string, as `SendString` sends them and `QueryStr` puts them together, in lib/bus/
-- include/robobus/network/interface/enumerate_interface.hpp.
use mathlib.Core.List.{append_assoc, append-nil}
use robobus.Base.{
  min, replicate, length-take, length-drop, length-replicate, drop-append, drop-replicate, ◌==◌,
  ==-ne, ltb→lt, false, ℕ, zero, suc, ◌+◌, ◌-◌, ◌*◌, ◌<◌, ◌≤◌, ◌≡◌, refl, sym, ◌∙◌, arith, some,
  List, [], ◌∷◌, ◌++◌, length, length-append, ltb, lt→ltb, Bool-cases, inl, inr, take, drop, get_or,
  set-append_at,
}
use robobus.Enumerate.Server.{push_chunk, string_message}
use robobus.Enumerate.Client.{write_bytes}
use robobus.Enumerate.Length.{length_bytes, push_length-eq}

take_next :
    (k i : ℕ) (str : List ℕ)
    → i < length str
    → take (suc k) (drop i str) ≡ get_or str i 0 ∷ take k (drop (suc i) str)
take_next k i [] h = absurd (omega arith)
take_next k zero (x ∷ str) h = refl
take_next k (suc i) (x ∷ str) h = take_next k i str (omega arith)

take_past : (k i : ℕ) (str : List ℕ) → length str ≤ i → take k (drop i str) ≡ []
take_past zero i str h = refl
take_past (suc k) zero [] h = refl
take_past (suc k) (suc i) [] h = refl
take_past (suc k) zero (x ∷ str) h = absurd (omega arith)
take_past (suc k) (suc i) (x ∷ str) h = take_past (suc k) i str (omega arith)

push_chunk-eq :
    (k i : ℕ) (str buffer : List ℕ) → push_chunk k i str buffer ≡ buffer ++ take k (drop i str)
unfolding push_chunk
push_chunk-eq zero i str buffer = sym (append-nil buffer)
push_chunk-eq (suc k) i str buffer = elim (Bool-cases (ltb i (length str))) [
  | inl more ↦
      let x = get_or str i 0 in
      let next : i + 1 ≡ suc i = omega arith in
      rw (more, take_next k i str (ltb→lt _ _ more), next)
        (push_chunk-eq k (suc i) str (buffer ++ x ∷ [])
          ∙ append_assoc buffer (x ∷ []) (take k (drop (suc i) str)))
  | inr done ↦ rw (done, take_past (suc k) i str (ground arith)) (sym (append-nil buffer))
]

pub string_message-length :
    (id : ℕ) (str : List ℕ) → string_message id 0 str ≡ 0x15 ∷ id ∷ 0 ∷ length_bytes 5 (length str)
unfolding string_message
string_message-length id str = push_length-eq 5 (length str) (0x15 ∷ id ∷ 0 ∷ []) (omega arith)

pub string_message-chunk :
    (id i : ℕ) (str : List ℕ)
    → string_message id (i + 1) str ≡ 0x15 ∷ id ∷ (i + 1) ∷ take 4 (drop (i * 4) str)
unfolding string_message
string_message-chunk id i str =
    let some_chunk : (i + 1 == 0) ≡ false = ==-ne (i + 1) 0 (omega arith) in
    let at : (i + 1 - 1) * 4 ≡ i * 4 = omega arith in
    rw (some_chunk, at) (push_chunk-eq 4 (i * 4) str (0x15 ∷ id ∷ (i + 1) ∷ []))

pub write_bytes-append :
    (bytes pre rest : List ℕ) (n : ℕ)
    → n ≡ length pre
    → length bytes ≤ length rest
    → write_bytes n bytes (pre ++ rest) ≡ some (pre ++ (bytes ++ drop (length bytes) rest))
unfolding write_bytes
write_bytes-append [] pre rest n e h = refl
write_bytes-append (b ∷ bytes) pre [] n e h = absurd (omega arith)
write_bytes-append (b ∷ bytes) pre (y ∷ rest) n e h =
    rw
      (
        lt→ltb n (length (pre ++ y ∷ rest)) (omega (arith, length-append pre (y ∷ rest))),
        set-append_at pre rest y b n e,
      )
      (simp append_assoc at (
        write_bytes-append bytes (pre ++ b ∷ []) rest (suc n)
          (omega (arith, length-append pre (b ∷ []))) (omega arith)))

-- The answer about the part of a string that comes next.
pub string_message-next :
    (id i : ℕ) (name pre post : List ℕ)
    → name ≡ pre ++ post
    → length pre ≡ i * 4
    → string_message id (i + 1) name ≡ 0x15 ∷ id ∷ (i + 1) ∷ take 4 post
string_message-next id i name pre post e at =
    string_message-chunk id i name ∙ rw (e, drop-append pre post (i * 4) (sym at)) refl

-- It is written over the cells that come next.
pub write_bytes-next :
    (pre post : List ℕ) (n blank : ℕ)
    → n ≡ length pre
    → write_bytes n (take 4 post) (pre ++ replicate (length post) blank)
      ≡ some ((pre ++ take 4 post) ++ replicate (length (drop 4 post)) blank)
write_bytes-next pre post n blank e =
    let bytes : length (take 4 post) ≡ min 4 (length post) = length-take 4 post in
    let left : length post - length (take 4 post) ≡ length (drop 4 post) =
      omega (arith, length-drop 4 post) in
    write_bytes-append (take 4 post) pre (replicate (length post) blank) n e
      (omega (arith, length-replicate (length post) blank))
    ∙ rw
        (
          drop-replicate (length (take 4 post)) (length post) blank,
          left,
          append_assoc pre (take 4 post) (replicate (length (drop 4 post)) blank),
        )
        refl
