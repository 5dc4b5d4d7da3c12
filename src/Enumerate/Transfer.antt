-- ===== src/Enumerate/Transfer.antt =====
-- `QueryStr` against the answers of `SendString`, in lib/bus/include/robobus/network/interface/
-- enumerate_interface.hpp.
use mathlib.Core.List.{append_assoc, append-nil}
use robobus.Base.{
  ℕ, zero, suc, ◌+◌, ◌-◌, ◌*◌, ◌/◌, ◌%◌, ◌<◌, ◌≤◌, ◌≡◌, refl, sym, ◌∙◌, arith, some, List, [], ◌∷◌,
  ◌++◌, length, length-append, length-take, length-drop, take-append-drop, take, drop, get_or,
  replicate, ==-refl,
}
use robobus.Wire.{Address}
use robobus.Enumerate.State.{Name}
use robobus.Enumerate.Server.{string_message}
use robobus.Enumerate.Coroutine.{Packet, Coroutine, send, await, ◌>>=◌, next_message, exec}
use robobus.Enumerate.Client.{query_chunks, query_str}
use robobus.Enumerate.Length.{length_bytes, read_length-bytes}
use robobus.Enumerate.Chunks.{string_message-next, write_bytes-next, string_message-length}

next_message-head :
    (op : ℕ) (p : Packet) (rest : List Packet)
    → get_or p.payload 0 256 ≡ op
    → next_message op (p ∷ rest) ≡ some (p, rest)
unfolding next_message
next_message-head op p rest h = rw (h, ==-refl op) refl

module _ {S : Type 0} (peer : S → Address → List ℕ → S × List Packet) where
  exec-await :
      {A : Type 0} (s : S) (op : ℕ) (p : Packet) (k : Packet → Coroutine A)
      → get_or p.payload 0 256 ≡ op
      → exec peer s (p ∷ []) (await op k) ≡ exec peer s [] (k p)
  unfolding exec
  exec-await s op p k head = rw (next_message-head op p [] head, exec) refl

  exec-send :
      {A : Type 0} (s : S) (inbox : List Packet) (dev : Address) (question : List ℕ)
      (k : Coroutine A)
      → exec peer s inbox (send dev question k)
        ≡ exec peer (peer s dev question).0 (inbox ++ (peer s dev question).1) k
  unfolding exec
  exec-send s inbox dev question k = refl

  -- One question, and one answer of the opcode that is waited for.
  pub exec-ask :
      {A : Type 0} (s s' : S) (dev : Address) (question : List ℕ) (op : ℕ) (p : Packet)
      (k : Packet → Coroutine A)
      → peer s dev question ≡ (s', p ∷ [])
      → get_or p.payload 0 256 ≡ op
      → exec peer s [] (send dev question (await op k)) ≡ exec peer s' [] (k p)
  exec-ask s s' dev question op p k answer head =
      exec-send s [] dev question (await op k) ∙ rw answer (exec-await s' op p k head)

  -- In state `s` the peer answers the questions about string `id` of device `dev` from address
  -- `from`, as `SendString` does where that string is `str`, and stays as it is.
  abbrev pub AnswersString : S → Address → Address → ℕ → Name → Type 0
  AnswersString s dev from id str =
      (index : ℕ)
      → peer s dev (0x14 ∷ id ∷ index ∷ [])
        ≡ (s, record { from = from; payload = string_message id index str } ∷ [])

  module _ (s : S) (dev from : Address) (id : ℕ) (name : Name) where
    -- One round of the loop.
    exec-chunk :
        {A : Type 0} (rounds i : ℕ) (pre post : Name) (k : Name → Coroutine A)
        → AnswersString s dev from id name
        → name ≡ pre ++ post
        → length pre ≡ i * 4
        → i < 255
        → exec peer s []
            (query_chunks dev id (suc rounds) i (pre ++ replicate (length post) b'#') >>= k)
          ≡ exec peer s [] (
              query_chunks dev id rounds
                (i + 1)
                ((pre ++ take 4 post) ++ replicate (length (drop 4 post)) b'#')
              >>= k)
    unfolding query_chunks
    exec-chunk rounds i pre post k answers e at small =
        let byte : (i + 1) % 256 ≡ i + 1 = omega arith in
        let chunk = string_message-next id i name pre post e at in
        let answer : Packet = record { from = from; payload = 0x15 ∷ id ∷ (i + 1) ∷ take 4 post } in
        exec-ask s s dev (0x14 ∷ id ∷ ((i + 1) % 256) ∷ []) 0x15 answer _
          (rw byte (answers (i + 1) ∙ rw chunk refl)) refl
        ∙ rw (write_bytes-next pre post (i * 4) b'#' (sym at)) refl

    exec-query_chunks :
        {A : Type 0} (rounds i : ℕ) (pre post : Name) (k : Name → Coroutine A)
        → AnswersString s dev from id name
        → name ≡ pre ++ post
        → rounds ≡ (length post + 3) / 4
        → (0 < length post → length pre ≡ i * 4)
        → i + rounds ≤ 255
        → exec peer s [] (query_chunks dev id rounds i (pre ++ replicate (length post) b'#') >>= k)
          ≡ exec peer s [] (k name)
    exec-query_chunks zero i pre [] k answers e rounds at small =
        rw (e, append-nil pre) (unfold query_chunks in refl)
    exec-query_chunks zero i pre (x ∷ post) k answers e rounds at small = absurd (omega arith)
    exec-query_chunks (suc rounds) i pre post k answers e r at small =
        let here : length pre ≡ i * 4 = at (omega arith) in
        let left : length (drop 4 post) ≡ length post - 4 = length-drop 4 post in
        exec-chunk rounds i pre post k answers e here (omega arith)
        ∙ exec-query_chunks rounds (i + 1) (pre ++ take 4 post) (drop 4 post) k answers
            (e ∙ rw (append_assoc pre (take 4 post) (drop 4 post), take-append-drop 4 post) refl)
            (omega arith)
            (λ more. omega (arith, length-append pre (take 4 post), length-take 4 post))
            (omega arith)

    -- `QueryStr` gets the string, whatever goes on with it, from a peer that answers as
    -- `SendString` does, for a string of at most 1020 bytes, which is 255 pieces.
    pub exec-query_str :
        {A : Type 0} (k : Name → Coroutine A)
        → AnswersString s dev from id name
        → length name ≤ 1020
        → exec peer s [] (query_str dev id >>= k) ≡ exec peer s [] (k name)
    unfolding query_str
    exec-query_str k answers small =
        let answer : Packet = record {
          from = from;
          payload = 0x15 ∷ id ∷ 0 ∷ length_bytes 5 (length name);
        } in
        exec-ask s s dev (0x14 ∷ id ∷ 0 ∷ []) 0x15 answer _
          (answers 0 ∙ rw (string_message-length id name) refl) refl
        ∙ rw (read_length-bytes (length name) (omega arith)) (
            exec-query_chunks ((length name + 3) / 4) 0 [] name k answers refl refl (λ _. refl)
              (omega arith))
