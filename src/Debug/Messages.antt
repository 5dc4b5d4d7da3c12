-- ===== src/Debug/Messages.antt =====
-- Which messages go to the adapter, on lib/runtime/include/robobus/debug/debug_info.hpp.
use mathlib.Core.Logic.{if_pos, if_neg}
use robobus.Base.{◌≡◌, ◌≢◌, refl, List, [], ◌∷◌}
use robobus.Debug.{message, messages}

module _ {M : Type 0} where
  -- No message is the same as the one before it, the first not the same as `previous`.
  abbrev pub HasNoRepeats : M → List M → Type 0
  HasNoRepeats previous [] = Unit {0}
  HasNoRepeats previous (m ∷ rest) = (previous ≢ m) × HasNoRepeats m rest

  abbrev pub last_of : M → List M → M
  last_of previous [] = previous
  last_of previous (m ∷ rest) = last_of m rest

module _ {M : Type 0} (same : Discrete M) where
  message-same : (m previous : M) → previous ≡ m → message same m previous ≡ (previous, [])
  unfolding message
  message-same m previous hit = if_pos (same previous m) hit (previous, []) (m, m ∷ [])

  message-new : (m previous : M) → previous ≢ m → message same m previous ≡ (m, m ∷ [])
  unfolding message
  message-new m previous miss = if_neg (same previous m) miss (previous, []) (m, m ∷ [])

  -- The adapter never gets the same message twice in a row, what it got last is the last message
  -- that there was, and that is the one remembered.
  pub messages-HasNoRepeats :
      (ms : List M) (previous : M)
      → HasNoRepeats previous (messages same ms previous).1
        × (last_of previous (messages same ms previous).1 ≡ last_of previous ms)
        × ((messages same ms previous).0 ≡ last_of previous ms)
  unfolding messages
  messages-HasNoRepeats [] previous = (tt, refl, refl)
  messages-HasNoRepeats (m ∷ ms) previous = elim (same previous m) [
    | yes hit ↦ rw (message-same m previous hit, hit) (messages-HasNoRepeats ms m)
    | no miss ↦
        let (apart, last, kept) = messages-HasNoRepeats ms m in
        rw (message-new m previous miss) ((miss, apart), last, kept)
  ]
