-- ===== src/Reception/Drive.antt =====
-- A coroutine that waits through `SyncRxMixin` of lib/bus/include/robobus/network/interface/
-- interface.hpp while messages come in one at a time, against a run that takes from its inbox the
-- first message of the opcode that it waits for.
use robobus.Base.{
  ℕ, zero, suc, ◌≡◌, ◌≢◌, refl, sym, ap, subst, arith, true, false, Option, none, some, List, [],
  ◌∷◌, ◌++◌, ◌==◌, get_or, ◌>>=◌, Bool-cases, Option-cases, inl, inr,
}
use mathlib.Core.Option.{some-injective}
use robobus.Wire.{Address}
use robobus.Enumerate.Coroutine.{Packet, Coroutine, ret, send, await, fault, next_message, exec}
use robobus.Reception.{
  LinkedList, SyncRx, resumed, handed_on, unavailable, waiting, returned, begin_receive,
  handle_rx_mixin,
}
use robobus.Reception.Nodes.{take_first}
use robobus.Reception.Waiters.{Represents, begin_receive-Represents, handle_rx_mixin-Represents}

-- A coroutine that has returned, or waits for the rest of an inbox to come in.
pub data Progress (L N S A : Type 0) : Type 0 where
  finished : A → S → Progress L N S A
  suspended : S → List Packet → SyncRx L N (Packet → Coroutine A) → Progress L N S A
  broken : Progress L N S A

-- Every message has an opcode.
abbrev pub HasOpcodes : List Packet → Type 0
HasOpcodes [] = Unit
HasOpcodes (p ∷ rest) = (p.payload ≢ []) × HasOpcodes rest

HasOpcodes-append : (xs ys : List Packet) → HasOpcodes xs → HasOpcodes ys → HasOpcodes (xs ++ ys)
HasOpcodes-append [] ys h k = k
HasOpcodes-append (x ∷ xs) ys (e, h) k = (e, HasOpcodes-append xs ys h k)

next_message-HasOpcodes :
    (op : ℕ) (inbox : List Packet) (p : Packet) (rest : List Packet)
    → HasOpcodes inbox
    → next_message op inbox ≡ some (p, rest)
    → HasOpcodes rest
unfolding next_message
next_message-HasOpcodes op [] p rest h e = cc
next_message-HasOpcodes op (x ∷ inbox) p rest (ne, h) e =
    elim (Bool-cases (get_or x.payload 0 256 == op)) [
      | inl hit ↦
          let found : some (x, inbox) ≡ some (p, rest) = rw hit at e in
          subst (λ xs. HasOpcodes xs)
            (ap (λ (r : Packet × List Packet). r.1) (some-injective _ _ found)) h
      | inr miss ↦ next_message-HasOpcodes op inbox p rest h (rw miss at e)
    ]

cons_of_ne_nil : (xs : List ℕ) → xs ≢ [] → (o : ℕ) × (r : List ℕ) × (xs ≡ o ∷ r)
cons_of_ne_nil [] h = absurd (h refl)
cons_of_ne_nil (o ∷ r) h = (o, r, refl)

module _ {L N H : Type 0} (list : LinkedList L N) (op : ℕ) (k : H) (p : Packet) where
  -- Where one coroutine waits, a message either is its own or goes to the other handler.
  handle_rx_mixin-own :
      (m : SyncRx L N H)
      → Represents list m ((op, k) ∷ [])
      → p.payload ≢ []
      → (get_or p.payload 0 256 == op) ≡ true
      → (m' : SyncRx L N H) × (handle_rx_mixin list p.from p.payload m ≡ some (m', resumed k p))
        × Represents list m' []
  unfolding take_first
  handle_rx_mixin-own m r ne hit =
      let (o, rest, e) = cons_of_ne_nil p.payload ne in
      let whole : record { from = p.from; payload = o ∷ rest } ≡ p =
        ap (λ (b : List ℕ). record { from = p.from; payload = b }) (sym e) in
      let mine : (op == o) ≡ true = ground (arith, ap (λ (b : List ℕ). get_or b 0 256) e) in
      subst
        (λ (q : Packet).
          (m' : SyncRx L N H) × (handle_rx_mixin list q.from q.payload m ≡ some (m', resumed k q))
          × Represents list m' [])
        whole
        (elim (handle_rx_mixin-Represents list p.from o rest m ((op, k) ∷ []) r) [
          | inl (nobody, _) ↦ absurd (let hidden = rw mine at nobody in cc)
          | inr (h, ws, m', found, done, r') ↦
              let first : some (k, []) ≡ some (h, ws) = rw mine at found in
              subst
                (λ (w : H × List (ℕ × H)).
                  (m' : SyncRx L N H) × (handle_rx_mixin list p.from (o ∷ rest) m
                    ≡ some (m', resumed w.0 (record { from = p.from; payload = o ∷ rest })))
                  × Represents list m' w.1)
                (sym (some-injective _ _ first)) (m', done, r')
        ])

  handle_rx_mixin-other :
      (m : SyncRx L N H)
      → Represents list m ((op, k) ∷ [])
      → p.payload ≢ []
      → (get_or p.payload 0 256 == op) ≡ false
      → handle_rx_mixin list p.from p.payload m ≡ some (m, handed_on)
  unfolding take_first
  handle_rx_mixin-other m r ne miss =
      let (o, rest, e) = cons_of_ne_nil p.payload ne in
      let other : (op == o) ≡ false = ground (arith, ap (λ (b : List ℕ). get_or b 0 256) e) in
      elim (handle_rx_mixin-Represents list p.from o rest m ((op, k) ∷ []) r) [
        | inl (_, done) ↦ rw e done
        | inr (h, ws, m', found, _, _) ↦ absurd (let hidden = rw other at found in cc)
      ]

begin_receive-alone :
    {L N H : Type 0} (list : LinkedList L N) (op : ℕ) (k : H) (m : SyncRx L N H)
    → Represents list m []
    → ((begin_receive list op k m).1 ≡ waiting)
      × Represents list (begin_receive list op k m).0 ((op, k) ∷ [])
begin_receive-alone list op k m r = (begin_receive-Represents list op k m [] r).0 (omega arith)

module _ {L N S A : Type 0} (list : LinkedList L N)
    (peer : S → Address → List ℕ → S × List Packet) where
  -- A coroutine runs until it waits: the peer's answers come behind what has come in.
  unfoldable pub advance :
      S → List Packet → Coroutine A → SyncRx L N (Packet → Coroutine A) → Progress L N S A
  advance s inbox (ret a) m = finished a s
  advance s inbox (send dest payload k) m =
      let (s', answers) = peer s dest payload in advance s' (inbox ++ answers) k m
  advance s inbox (await op k) m =
      let begun = begin_receive list op k m in
      elim begun.1 [
        | waiting ↦ suspended s inbox begun.0
        | returned p ↦ advance s inbox (k p) begun.0
      ]
  advance s inbox fault m = broken

  -- Each message goes through `HandleRxMixin`; fuel counts the messages.
  unfoldable pub deliver_all : ℕ → Progress L N S A → Option (A × S)
  deliver_all fuel (finished a s) = some (a, s)
  deliver_all fuel broken = none
  deliver_all zero (suspended s inbox m) = none
  deliver_all (suc fuel) (suspended s [] m) = none
  deliver_all (suc fuel) (suspended s (p ∷ rest) m) =
      handle_rx_mixin list p.from p.payload m >>= λ r. elim r.1 [
        | resumed k q ↦ deliver_all fuel (advance s rest (k q) r.0)
        | handed_on ↦ deliver_all fuel (suspended s rest r.0)
        | unavailable ↦ none
      ]

  module _ (answers : (s : S) (d : Address) (b : List ℕ) → HasOpcodes (peer s d b).1) where
    deliver_all-next_message :
        (s : S) (op : ℕ) (k : Packet → Coroutine A) (p : Packet) (rest : List Packet)
        (result : A × S)
        → ((m : SyncRx L N (Packet → Coroutine A))
            → Represents list m []
            → (fuel : ℕ) × (deliver_all fuel (advance s rest (k p) m) ≡ some result))
        → (inbox : List Packet) (m : SyncRx L N (Packet → Coroutine A)) → HasOpcodes inbox
        → next_message op inbox ≡ some (p, rest)
        → Represents list m ((op, k) ∷ [])
        → (fuel : ℕ) × (deliver_all fuel (suspended s inbox m) ≡ some result)
    unfolding next_message deliver_all
    deliver_all-next_message s op k p rest result go [] m h e r = cc
    deliver_all-next_message s op k p rest result go (x ∷ inbox) m (ne, h) e r =
        elim (Bool-cases (get_or x.payload 0 256 == op)) [
          | inl hit ↦
              let found : some (x, inbox) ≡ some (p, rest) = rw hit at e in
              let (m', done, r') = handle_rx_mixin-own list op k x m r ne hit in
              let (fuel, returns) = go m' r' in
              (
                suc fuel,
                rw done (
                    subst
                      (λ (y : Packet × List Packet).
                        deliver_all fuel (advance s y.1 (k y.0) m') ≡ some result)
                      (sym (some-injective _ _ found)) returns),
              )
          | inr miss ↦
              let (fuel, returns) =
                deliver_all-next_message s op k p rest result go inbox m h (rw miss at e) r in
              (suc fuel, rw (handle_rx_mixin-other list op k x m r ne miss) returns)
        ]

    -- What a coroutine returns in a run that takes each message from its inbox when it waits for it,
    -- it returns too when the messages come in one at a time through `HandleRxMixin`, and wake it up
    -- where they have the opcode that it waits for.
    pub deliver_all-exec :
        (c : Coroutine A) (s : S) (inbox : List Packet) (m : SyncRx L N (Packet → Coroutine A))
        (result : A × S)
        → HasOpcodes inbox
        → Represents list m []
        → exec peer s inbox c ≡ some result
        → (fuel : ℕ) × (deliver_all fuel (advance s inbox c m) ≡ some result)
    unfolding exec advance deliver_all
    deliver_all-exec (ret a) s inbox m result h r e = (0, e)
    deliver_all-exec (send dest payload k) s inbox m result h r e =
        deliver_all-exec k (peer s dest payload).0 (inbox ++ (peer s dest payload).1) m result
          (HasOpcodes-append inbox (peer s dest payload).1 h (answers s dest payload)) r e
    deliver_all-exec (await op k) s inbox m result h r e =
        elim (Option-cases (next_message op inbox)) [
          | inl stuck ↦ absurd (let nothing = rw (stuck, exec) at e in cc)
          | inr ((p, rest), found) ↦
              let (begun, r') = begin_receive-alone list op k m r in
              let returns : exec peer s rest (k p) ≡ some result = rw (found, exec) at e in
              rw (begun, advance)
                (deliver_all-next_message s op k p rest result
                  (λ m' r''.
                    deliver_all-exec (k p) s rest m' result
                      (next_message-HasOpcodes op inbox p rest h found) r'' returns)
                  inbox (begin_receive list op k m).0 h found r')
        ]
    deliver_all-exec fault s inbox m result h r e = cc
