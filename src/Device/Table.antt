-- ===== src/Device/Table.antt =====
-- The table of interfaces and the set of features, on device.hpp and device_feature.hpp of
-- lib/bus/include/robobus/network/device.
use mathlib.Core.List.{Nodup, Nodup-cons, not-mem-nil, mem-cons, Mem}
use mathlib.Core.Logic.Or
use mathlib.Core.HLevel.{⊥_prop}
use robobus.Base.{
  ℕ, ◌≡◌, refl, inl, inr, true, false, Option, none, some, List, [], ◌∷◌, map, ◌==◌, if◌then◌else◌,
  arith, Bool-cases, get_or-set, length-set, ◌<◌, length,
}
use robobus.Device.{
  Feature, container, device, k_max, position, Features, add, remove, contains, find, has, Device,
  has_interface, get_interface, add_interface,
}

module _ {ℓ} {V : Type ℓ} where
  pub has-find : (k : ℕ) (m : List (ℕ × V)) → (if has k m then find k m else none) ≡ find k m
  unfolding has find
  has-find k [] = refl
  has-find k ((j, v) ∷ m) = ground (arith, has-find k m)

module _ {I : Type 0} where
  -- A null pointer changes nothing, and `AddInterface` says so.
  add_interface-none : (port : ℕ) (d : Device I) → add_interface port none d ≡ (d, false)
  unfolding add_interface
  add_interface-none port d = refl

  -- What `AddInterface` does with an interface. On a port that is taken it returns false and leaves
  -- the device as it was; on a free port it returns true, `GetInterface` finds the interface there
  -- and what it found before at every other port, and the other fields are as before.
  pub get_interface-add :
      (port q : ℕ) (i : I) (d : Device I)
      → let r = add_interface port (some i) d in
        if has_interface port d
        then (r ≡ (d, false))
        else (r.1 ≡ true)
          × (get_interface q r.0 ≡ (if port == q then some i else get_interface q d))
          × (r.0.state ≡ d.state)
          × (r.0.self ≡ d.self)
          × (r.0.advertise_tag ≡ d.advertise_tag)
          × (r.0.features ≡ d.features)
  unfolding add_interface get_interface has_interface
  get_interface-add port q i d = elim (Bool-cases (has port d.interfaces)) [
    | inl taken ↦ rw taken refl
    | inr free ↦ rw free (refl, ground (arith, has-find q d.interfaces), refl, refl, refl, refl)
  ]

position-lt : (f : Feature) → position f < 8
position-lt container = omega arith
position-lt device = omega arith
position-lt k_max = omega arith

-- Ports are distinct.
module _ {ℓ} {V : Type ℓ} where
  abbrev pub ports : List (ℕ × V) → List ℕ
  ports = map (λ e. e.0)

  has-false : (k : ℕ) (m : List (ℕ × V)) → has k m ≡ false → ¬ Mem k (ports m)
  unfolding has
  has-false k [] h x = absurd (not-mem-nil x)
  has-false k ((j, v) ∷ m) h x =
      Or.elim ⊥_prop (mem-cons.0 x) (λ e. ground arith) (λ r. has-false k m (ground arith) r)

  find-none : (k : ℕ) (m : List (ℕ × V)) → ¬ Mem k (ports m) → find k m ≡ none
  unfolding find
  find-none k [] h = refl
  find-none k ((j, v) ∷ m) h = ground (
    arith,
    λ (e : k ≡ j). h (mem-cons.1 (Or.inl e)),
    find-none k m (λ x. h (mem-cons.1 (Or.inr x))),
  )

-- `AddInterface` never registers a port twice.
pub add_interface-Nodup :
    {I : Type 0} (port : ℕ) (i : Option I) (d : Device I)
    → Nodup (ports d.interfaces)
    → Nodup (ports (add_interface port i d).0.interfaces)
unfolding add_interface
add_interface-Nodup port none d h = h
add_interface-Nodup port (some i) d h = elim (Bool-cases (has port d.interfaces)) [
  | inl taken ↦ rw taken h
  | inr free ↦ rw free (Nodup-cons.1 (has-false port d.interfaces free, h))
]

-- The features are a set: after `Add` or `Remove` of one, `Contains` answers for that one
-- accordingly, and for every other as before.
pub contains-add-remove :
    (f g : Feature) (s : Features)
    → length s.bits ≡ 8
    → (contains g (add f s) ≡ (if position f == position g then true else contains g s))
      × (contains g (remove f s) ≡ (if position f == position g then false else contains g s))
      × (length (add f s).bits ≡ 8)
      × (length (remove f s).bits ≡ 8)
unfolding contains add remove
contains-add-remove f g s h =
    let room = position-lt f in
    (
      get_or-set s.bits (position f) (position g) true false (omega arith),
      get_or-set s.bits (position f) (position g) false false (omega arith),
      omega (arith, length-set s.bits (position f) true),
      omega (arith, length-set s.bits (position f) false),
    )
