-- ===== src/Signals/Slots.antt =====
-- Which slots a signal of lib/runtime/include/robobus/internal/signal.hpp calls.
use mathlib.Core.List.{append_assoc, append-nil}
use robobus.Base.{
  ℕ, ◌-◌, ◌<◌, ◌≡◌, refl, sym, ap, ◌∙◌, arith, Bool, true, false, some, List, [], ◌∷◌, ◌++◌, ◌==◌,
  ltb, if◌then◌else◌, ==-refl, Bool-cases, inl, inr,
}
use robobus.Signals.{Signal, Store, alive, drop_tx, add_slot, connect, call_all, fire, connect_all}

module _ {S : Type 0} where
  -- The slots of one signal among some connections, in their order.
  unfoldable pub slots_for : ℕ → List (ℕ × S) → List S
  slots_for a [] = []
  slots_for a ((b, slot) ∷ rest) =
      let others = slots_for a rest in if b == a then slot ∷ others else others

  -- Which connections are to a signal that is there.
  unfoldable pub reached : Store S → List (ℕ × S) → List Bool
  reached m [] = []
  reached m ((b, slot) ∷ rest) = alive b m ∷ reached m rest

  connect-alive : (a b : ℕ) (slot : S) (m : Store S) → alive a (connect b slot m).0 ≡ alive a m
  unfolding connect alive add_slot
  connect-alive a b slot m = ground arith

  connect-slots :
      (a b : ℕ) (slot : S) (m : Store S)
      → alive a m ≡ true
      → ((connect b slot m).0.signal a).slots
        ≡ (m.signal a).slots ++ (if b == a then slot ∷ [] else [])
  unfolding connect add_slot
  connect-slots a b slot m h = elim (Bool-cases (b == a)) [
    | inl hit ↦ let same : b ≡ a = ground arith in rw (hit, same, h, connect) (rw (==-refl a) refl)
    | inr miss ↦ elim (Bool-cases (alive b m)) [
      | inl there ↦
          let apart : (a == b) ≡ false = ground arith in
          rw (miss, there, connect) (rw apart (sym (append-nil (m.signal a).slots)))
      | inr gone ↦ rw (miss, gone, connect) (sym (append-nil (m.signal a).slots))
    ]
  ]

  connect-result : (b : ℕ) (slot : S) (m : Store S) → (connect b slot m).1 ≡ alive b m
  unfolding connect
  connect-result b slot m = ground arith

  if-append :
      (c : Bool) (slot : S) (rest : List S)
      → (if c then slot ∷ [] else []) ++ rest ≡ (if c then slot ∷ rest else rest)
  if-append true slot rest = refl
  if-append false slot rest = refl

  drop_tx_self :
      (a : ℕ) (m : Store S)
      → let left = (m.signal a).owners - 1 in
        (drop_tx a m).signal a
        ≡ record { owners = left; slots = if ltb 0 left then (m.signal a).slots else [] }
  unfolding drop_tx
  drop_tx_self a m = rw (==-refl a) refl

  connect_all-slots :
      (cs : List (ℕ × S)) (a : ℕ) (m : Store S)
      → alive a m ≡ true
      → (alive a (connect_all cs m).0 ≡ true)
        × (((connect_all cs m).0.signal a).slots ≡ (m.signal a).slots ++ slots_for a cs)
  unfolding connect_all slots_for
  connect_all-slots [] a m h = (h, sym (append-nil (m.signal a).slots))
  connect_all-slots ((b, slot) ∷ cs) a m h =
      let m' = (connect b slot m).0 in
      let (there, slots) = connect_all-slots cs a m' (connect-alive a b slot m ∙ h) in
      (
        there,
        slots
            ∙ ap (λ (l : List S). l ++ slots_for a cs) (connect-slots a b slot m h)
            ∙ append_assoc (m.signal a).slots _ (slots_for a cs)
            ∙ ap (λ (l : List S). (m.signal a).slots ++ l)
                (if-append (b == a) slot (slots_for a cs)),
      )

  reached-connect :
      (b : ℕ) (slot : S) (m : Store S) (cs : List (ℕ × S))
      → reached (connect b slot m).0 cs ≡ reached m cs
  unfolding reached
  reached-connect b slot m [] = refl
  reached-connect b slot m ((a, other) ∷ cs) =
      ap (λ (t : Bool). t ∷ reached (connect b slot m).0 cs) (connect-alive a b slot m)
      ∙ ap (alive a m ∷◌) (reached-connect b slot m cs)

  connect_all-reached : (cs : List (ℕ × S)) (m : Store S) → (connect_all cs m).1 ≡ reached m cs
  unfolding connect_all reached
  connect_all-reached [] m = refl
  connect_all-reached ((b, slot) ∷ cs) m =
      ap (λ (t : Bool). t ∷ (connect_all cs (connect b slot m).0).1) (connect-result b slot m)
      ∙ ap (alive b m ∷◌)
          (connect_all-reached cs (connect b slot m).0 ∙ reached-connect b slot m cs)

  -- After some connections to signals, `Fire` on one of them that is there calls the slots that it
  -- had before and then those connected to it, each once and in the order of the connections, with
  -- the datum, and none that was connected to another signal; and each `Connect` returned whether
  -- its signal was there.
  pub fire-connect_all :
      {T : Type 0} (cs : List (ℕ × S)) (a : ℕ) (datum : T) (m : Store S)
      → alive a m ≡ true
      → (fire a datum (connect_all cs m).0
          ≡ some (call_all datum ((m.signal a).slots ++ slots_for a cs)))
        × ((connect_all cs m).1 ≡ reached m cs)
  unfolding fire
  fire-connect_all cs a datum m h =
      let (there, slots) = connect_all-slots cs a m h in
      (
        rw (there, fire) (ap (λ (l : List S). some (call_all datum l)) slots),
        connect_all-reached cs m,
      )

  -- When the last `SignalTx` of a signal ends, its slots are gone, `Connect` fails and changes
  -- nothing, and `Fire` has no signal; as long as there is another, nothing changes but the count.
  pub drop_tx-connect :
      (a : ℕ) (slot : S) (m : Store S)
      → ((m.signal a).owners ≡ 1
          → (connect a slot (drop_tx a m) ≡ (drop_tx a m, false))
            × (((drop_tx a m).signal a).slots ≡ []))
        × (1 < (m.signal a).owners
            → ((connect a slot (drop_tx a m)).1 ≡ true)
              × (((connect a slot (drop_tx a m)).0.signal a).slots
                  ≡ (m.signal a).slots ++ slot ∷ []))
  unfolding connect alive
  drop_tx-connect a slot m =
      let self = drop_tx_self a m in
      (
        λ one.
            let gone : alive a (drop_tx a m) ≡ false =
              ap (λ (v : Signal S). ltb 0 v.owners) self ∙ ground arith in
            (rw (gone, connect) refl, ap (λ (v : Signal S). v.slots) self ∙ ground arith),
        λ more.
            let others : ltb 0 ((m.signal a).owners - 1) ≡ true = ground arith in
            let there : alive a (drop_tx a m) ≡ true =
              ap (λ (v : Signal S). ltb 0 v.owners) self ∙ ground arith in
            (
              rw (there, connect) refl,
              connect-slots a a slot (drop_tx a m) there
                  ∙ ap
                      (λ (b : Bool).
                        ((drop_tx a m).signal a).slots ++ (if b then slot ∷ [] else []))
                      (==-refl a)
                  ∙ ap (λ (v : Signal S). v.slots ++ slot ∷ []) self
                  ∙ ap (λ (c : Bool). (if c then (m.signal a).slots else []) ++ slot ∷ []) others,
            ),
      )
