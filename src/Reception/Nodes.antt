-- ===== src/Reception/Nodes.antt =====
-- The nodes of the list of `SyncRxMixin` in lib/bus/include/robobus/network/interface/interface.hpp,
-- and the coroutines that they hold.
use mathlib.Core.Logic.{if_pos, if_neg}
use robobus.Base.{
  NotIn, Distinct, ℕ, suc, ◌≡◌, ◌≢◌, refl, ap, ◌∙◌, arith, Option, none, some, List, [], ◌∷◌, ◌++◌,
  length, get_elem?, ◌==◌, if◌then◌else◌, Bool-cases, ◌⊎◌, inl, inr,
}
use robobus.Reception.{MessageAwaiter, without, assign_at, find_waiter}

-- The longest waiting coroutine of an opcode, and the others in their order.
unfoldable pub take_first : {H : Type 0} → ℕ → List (ℕ × H) → Option (H × List (ℕ × H))
take_first op [] = none
take_first op ((o, h) ∷ ws) =
    if o == op
    then some (h, ws)
    else elim (take_first op ws) [ none ↦ none | some (k, rest) ↦ some (k, (o, h) ∷ rest) ]

module _ {N H : Type 0} (opcode : N → ℕ) (awaiter : N → MessageAwaiter H) where
  -- The nodes hold the coroutines that wait, in order.
  abbrev pub Hold : List N → List (ℕ × H) → Type 0
  Hold [] [] = Unit
  Hold [] (w ∷ ws) = ⊥
  Hold (n ∷ ns) [] = ⊥
  Hold (n ∷ ns) ((op, h) ∷ ws) = (opcode n ≡ op) × ((awaiter n).handle ≡ some h) × Hold ns ws

module _ {N : Type 0} (same : Discrete N) where
  pub NotIn-without : (n : N) (xs : List N) → NotIn n (without same n xs)
  NotIn-without n [] = tt
  NotIn-without n (x ∷ xs) = elim (same x n) [
    | yes e ↦ rw (if_pos _ e) (NotIn-without n xs)
    | no e ↦ rw (if_neg _ e) (e, NotIn-without n xs)
  ]

  pub without-NotIn : (n : N) (xs : List N) → NotIn n xs → without same n xs ≡ xs
  without-NotIn n [] h = refl
  without-NotIn n (x ∷ xs) (e, h) = rw (if_neg _ e) (ap (x ∷◌) (without-NotIn n xs h))

  NotIn-without_other : (n y : N) (xs : List N) → NotIn y xs → NotIn y (without same n xs)
  NotIn-without_other n y [] h = tt
  NotIn-without_other n y (x ∷ xs) (e, h) = elim (same x n) [
    | yes hit ↦ rw (if_pos _ hit) (NotIn-without_other n y xs h)
    | no miss ↦ rw (if_neg _ miss) (e, NotIn-without_other n y xs h)
  ]

  pub Distinct-without : (n : N) (xs : List N) → Distinct xs → Distinct (without same n xs)
  Distinct-without n [] h = tt
  Distinct-without n (x ∷ xs) (new, h) = elim (same x n) [
    | yes hit ↦ rw (if_pos _ hit) (Distinct-without n xs h)
    | no miss ↦ rw (if_neg _ miss) (NotIn-without_other n x xs new, Distinct-without n xs h)
  ]

  pub assign_at-other {ℓ} :
      {V : Type ℓ} (n : N) (v : V) (f : N → V) (x : N) → x ≢ n → assign_at same n v f x ≡ f x
  assign_at-other n v f x e = rw (if_neg _ e)

  pub assign_at_self {ℓ} : {V : Type ℓ} (n : N) (v : V) (f : N → V) → assign_at same n v f n ≡ v
  assign_at_self n v f = rw (if_pos (same n n) refl)

module _ {N H : Type 0} where
  -- What other nodes hold does not matter.
  pub Hold-agree :
      (opcode opcode' : N → ℕ) (awaiter awaiter' : N → MessageAwaiter H) (n : N)
      → ((x : N) → x ≢ n → opcode' x ≡ opcode x)
      → ((x : N) → x ≢ n → awaiter' x ≡ awaiter x)
      → (ns : List N) (ws : List (ℕ × H)) → NotIn n ns
      → Hold opcode awaiter ns ws
      → Hold opcode' awaiter' ns ws
  Hold-agree opcode opcode' awaiter awaiter' n p q [] [] new h = tt
  Hold-agree opcode opcode' awaiter awaiter' n p q [] (w ∷ ws) new h = h
  Hold-agree opcode opcode' awaiter awaiter' n p q (x ∷ ns) [] new h = h
  Hold-agree opcode opcode' awaiter awaiter' n p q (x ∷ ns) ((op, k) ∷ ws) (ne, new) (at, held, h) =
      (
        p x ne ∙ at,
        ap (λ (a : MessageAwaiter H). a.handle) (q x ne) ∙ held,
        Hold-agree opcode opcode' awaiter awaiter' n p q ns ws new h,
      )

  pub Hold-append :
      (opcode : N → ℕ) (awaiter : N → MessageAwaiter H) (ns : List N) (ws : List (ℕ × H)) (n : N)
      (op : ℕ) (h : H)
      → Hold opcode awaiter ns ws
      → opcode n ≡ op
      → (awaiter n).handle ≡ some h
      → Hold opcode awaiter (ns ++ n ∷ []) (ws ++ (op, h) ∷ [])
  Hold-append opcode awaiter [] [] n op h held at here = (at, here, tt)
  Hold-append opcode awaiter [] (w ∷ ws) n op h held at here = absurd held
  Hold-append opcode awaiter (x ∷ ns) [] n op h held at here = absurd held
  Hold-append opcode awaiter (x ∷ ns) ((o, k) ∷ ws) n op h (p, q, held) at here =
      (p, q, Hold-append opcode awaiter ns ws n op h held at here)

  pub Hold-length :
      (opcode : N → ℕ) (awaiter : N → MessageAwaiter H) (ns : List N) (ws : List (ℕ × H))
      → Hold opcode awaiter ns ws
      → length ns ≡ length ws
  Hold-length opcode awaiter [] [] h = refl
  Hold-length opcode awaiter [] (w ∷ ws) h = absurd h
  Hold-length opcode awaiter (x ∷ ns) [] h = absurd h
  Hold-length opcode awaiter (x ∷ ns) ((o, k) ∷ ws) h =
      ap suc (Hold-length opcode awaiter ns ws h.2)

  module _ (same : Discrete N) (opcode : N → ℕ) (awaiter : N → MessageAwaiter H) where
    pub find_waiter-take_first :
        (op : ℕ) (payload : List ℕ) (ns : List N) (ws : List (ℕ × H))
        → get_elem? payload 0 ≡ some op
        → Distinct ns
        → Hold opcode awaiter ns ws
        → ((find_waiter payload opcode ns ≡ some none) × (take_first op ws ≡ none))
          ⊎ ((n : N) × (h : H) × (ws' : List (ℕ × H)) × (find_waiter payload opcode ns
                ≡ some (some n))
              × (take_first op ws ≡ some (h, ws'))
              × (opcode n ≡ op)
              × ((awaiter n).handle ≡ some h)
              × Hold opcode awaiter (without same n ns) ws')
    unfolding find_waiter take_first
    find_waiter-take_first op payload [] [] first d held = inl (refl, refl)
    find_waiter-take_first op payload [] (w ∷ ws) first d held = absurd held
    find_waiter-take_first op payload (x ∷ ns) [] first d held = absurd held
    find_waiter-take_first op payload (x ∷ ns) ((o, h) ∷ ws) first (new, d) (at, here, held) =
        elim (Bool-cases (o == op)) [
          | inl hit ↦
              let same_op : opcode x ≡ op = ground arith in
              inr (
                x,
                h,
                ws,
                rw (first, at, hit) refl,
                rw hit refl,
                same_op,
                here,
                rw (if_pos (same x x) refl, without-NotIn same x ns new) held,
              )
          | inr miss ↦
              let other : opcode x ≢ op = λ e. ground arith in
              elim (find_waiter-take_first op payload ns ws first d held) [
                | inl (e, f) ↦ inl (rw (first, at, miss) e, rw (miss, f) refl)
                | inr (n, k, ws', e, f, is_op, its, rest) ↦
                    let apart : x ≢ n = λ p. other (ap opcode p ∙ is_op) in
                    inr (
                      n,
                      k,
                      (o, h) ∷ ws',
                      rw (first, at, miss) e,
                      rw (miss, f) refl,
                      is_op,
                      its,
                      rw (if_neg (same x n) apart) (at, here, rest),
                    )
              ]
        ]
