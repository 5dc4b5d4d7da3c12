-- ===== src/Enumerate/Coroutine.antt =====
-- Coroutines as trees of what they do: they send, and they wait for a message of one opcode, as
-- `Send` and `co_await ReceiveAwait(op)` of lib/bus/include/robobus/network/interface do.
use robobus.Base.{
  ap, ℕ, Option, none, some, List, [], ◌∷◌, ◌++◌, ◌==◌, if◌then◌else◌, get_or, ◌≡◌, refl,
}
use mathlib.Core.Path.{fun_ext}
use robobus.Wire.{Address}

-- `SyncRxMixin::Packet`
pub record Packet : Type 0 where
  pub from : Address
  pub payload : List ℕ

pub data Coroutine (A : Type 0) : Type 0 where
  ret : A → Coroutine A
  send : Address → List ℕ → Coroutine A → Coroutine A
  await : ℕ → (Packet → Coroutine A) → Coroutine A
  -- The source goes on outside of an object here.
  fault : Coroutine A

-- `co_await` of another coroutine.
infixl 5 ◌>>=◌ ◌>>◌
abbrev pub ◌>>=◌ : {A B : Type 0} → Coroutine A → (A → Coroutine B) → Coroutine B
ret a >>= f = f a
send d p k >>= f = send d p (k >>= f)
await op k >>= f = await op (λ x. k x >>= f)
fault >>= f = fault

abbrev pub ◌>>◌ : {A B : Type 0} → Coroutine A → Coroutine B → Coroutine B
m >> k = m >>= λ _. k

abbrev pub send_message : Address → List ℕ → Coroutine (Unit {0})
send_message dest payload = send dest payload (ret tt)

abbrev pub receive_await : ℕ → Coroutine Packet
receive_await op = await op (λ x. ret x)

abbrev pub checked : {A : Type 0} → Option A → Coroutine A
checked none = fault
checked (some a) = ret a

-- The first message of the opcode, and those behind it; the ones before it go to another handler.
unfoldable pub next_message : ℕ → List Packet → Option (Packet × List Packet)
next_message op [] = none
next_message op (p ∷ rest) =
    if get_or p.payload 0 256 == op then some (p, rest) else next_message op rest

-- A run against a peer that answers each message at once with some others. `none`: the coroutine
-- waits for a message that does not come, or has gone wrong.
module _ {S : Type 0} (peer : S → Address → List ℕ → S × List Packet) where
  unfoldable pub exec : {A : Type 0} → S → List Packet → Coroutine A → Option (A × S)
  unfolding next_message
  exec s inbox (ret a) = some (a, s)
  exec s inbox (send dest payload k) =
      let (s', answers) = peer s dest payload in exec s' (inbox ++ answers) k
  exec s inbox (await op k) = elim (next_message op inbox) [
    | none ↦ none
    | some (p, rest) ↦ exec s rest (k p)
  ]
  exec s inbox fault = none

-- The laws of `co_await`.
pub >>=_assoc :
    {A B C : Type 0} (m : Coroutine A) (f : A → Coroutine B) (g : B → Coroutine C)
    → (m >>= f >>= g) ≡ (m >>= λ x. f x >>= g)
>>=_assoc (ret a) f g = refl
>>=_assoc (send d p k) f g = ap (send d p) (>>=_assoc k f g)
>>=_assoc (await op k) f g = ap (await op) (fun_ext (λ x. >>=_assoc (k x) f g))
>>=_assoc fault f g = refl

pub >>=-ret : {A : Type 0} (m : Coroutine A) → (m >>= λ x. ret x) ≡ m
>>=-ret (ret a) = refl
>>=-ret (send d p k) = ap (send d p) (>>=-ret k)
>>=-ret (await op k) = ap (await op) (fun_ext (λ x. >>=-ret (k x)))
>>=-ret fault = refl
