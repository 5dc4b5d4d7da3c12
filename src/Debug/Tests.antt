-- ===== src/Debug/Tests.antt =====
-- A few messages, and two literals.
use native.Mathlib.Decide.{ℕ_discrete}
use robobus.Base.{ℕ, ◌≡◌, refl, none, [], ◌∷◌}
use robobus.Debug.{StringLiteral, messages}
use robobus.Debug.Messages.{HasNoRepeats, last_of, messages-HasNoRepeats}
use robobus.Debug.Contexts.{Context, root_child, descend, move_context}
use robobus.Debug.Literals.{Spells}

messages-HasNoRepeats_example :
    HasNoRepeats 0 (messages ℕ_discrete (1 ∷ 1 ∷ 2 ∷ []) 0).1
    × (last_of 0 (messages ℕ_discrete (1 ∷ 1 ∷ 2 ∷ []) 0).1 ≡ 2)
    × ((messages ℕ_discrete (1 ∷ 1 ∷ 2 ∷ []) 0).0 ≡ 2)
messages-HasNoRepeats_example = messages-HasNoRepeats ℕ_discrete (1 ∷ 1 ∷ 2 ∷ []) 0

abbrev ab : StringLiteral
ab = record { size = 2; characters = b'a' ∷ b'b' ∷ 0 ∷ [] }

ab-Spells : Spells ab (b'a' ∷ b'b' ∷ [])
ab-Spells = record { contents = refl; measure = refl }

-- The context "ab.ab.ab", two below the one that the root makes for "ab".
abbrev below : Context ℕ
below = descend (ab ∷ ab ∷ []) (root_child ab 1)

abbrev top : Context ℕ
top = root_child ab 1

moved : move_context top ≡ (top, record { path = ab; root_ctx = none })
unfolding move_context root_child
moved = refl
