-- ===== src/Device/Status.antt =====
-- `StartMonitor` of lib/bus/include/robobus/network/device/device.hpp: the text that a turn of its loop
-- hands to `DebugInfo::Message`.
use mathlib.Core.Logic.{if_pos, if_neg}
use robobus.Base.{ℕ, ◌≡◌, refl, ap, arith, Bool, List, [], ◌∷◌, ◌++◌, if◌then◌else◌}
use robobus.Base.Text.{codes, to_string, to_string-injective}
use robobus.Wire.{address}
use robobus.Device.{
  State, not_initialized, id_waiting, initialized, container, device, Device, contains,
}
use robobus.Debug.{message}

-- `static_cast<int>(state_)`
abbrev pub state_code : State → ℕ
state_code not_initialized = 0
state_code id_waiting = 1
state_code initialized = 2

abbrev pub feature_letters : Bool → Bool → List ℕ
feature_letters is_container is_device =
    (if is_container then codes "C" else []) ++ (if is_device then codes "D" else [])

abbrev status_text : ℕ → ℕ → ℕ → List ℕ → List ℕ
status_text id tag state features =
    codes "ID: "
    ++ (to_string id
        ++ (codes "  Tag: "
            ++ (to_string tag
                ++ (codes "  State: " ++ (to_string state ++ (codes "  Features: " ++ features))))))

module _ {I : Type 0} where
  unfoldable pub status : Device I → List ℕ
  status d =
      status_text d.self.id d.advertise_tag.id (state_code d.state)
        (feature_letters (contains container d.features) (contains device d.features))

  -- A turn of the loop: the next `previous_message_` and what goes to the adapter.
  unfoldable pub monitor_turn : Discrete (List ℕ) → Device I → List ℕ → List ℕ × List (List ℕ)
  unfolding status
  monitor_turn same d previous = message same (status d) previous

-- What of a device the text shows.
pub record LooksLike {I : Type 0} (d d' : Device I) : Type 0 where
  pub same_self : d.self ≡ d'.self
  pub same_tag : d.advertise_tag ≡ d'.advertise_tag
  pub same_state : d.state ≡ d'.state
  pub same_container : contains container d.features ≡ contains container d'.features
  pub same_device : contains device d.features ≡ contains device d'.features

feature_letters-injective :
    (c d c' d' : Bool) → feature_letters c d ≡ feature_letters c' d' → (c ≡ c') × (d ≡ d')
feature_letters-injective c d c' d' e = ground arith

state_code-injective : (s s' : State) → state_code s ≡ state_code s' → s ≡ s'
state_code-injective s s' e = ground arith

tail {ℓ} : {A : Type ℓ} → List A → List A
tail [] = []
tail (x ∷ xs) = xs

status_text-injective :
    (a b s a' b' s' : ℕ) (f f' : List ℕ)
    → status_text a b s f ≡ status_text a' b' s' f'
    → (a ≡ a') × (b ≡ b') × (s ≡ s') × (f ≡ f')
unfolding tail
status_text-injective a b s a' b' s' f f' e =
    let (same_a, e1) =
      to_string-injective a a' b' ' _ _ refl (ap (λ l. tail (tail (tail (tail l)))) e) in
    let (same_b, e2) =
      to_string-injective b b' b' ' _ _ refl
        (ap (λ l. tail (tail (tail (tail (tail (tail (tail l))))))) e1) in
    let (same_s, e3) =
      to_string-injective s s' b' ' _ _ refl
        (ap (λ l. tail (tail (tail (tail (tail (tail (tail (tail (tail l))))))))) e2) in
    (
      same_a,
      same_b,
      same_s,
      ap (λ l. tail (tail (tail (tail (tail (tail (tail (tail (tail (tail (tail (tail l))))))))))))
          e3,
    )

module _ {I : Type 0} where
  status-injective : (d d' : Device I) → status d ≡ status d' → LooksLike d d'
  unfolding status
  status-injective d d' e =
      let (self, tag, state, features) =
        status_text-injective d.self.id d.advertise_tag.id (state_code d.state) d'.self.id
          d'.advertise_tag.id (state_code d'.state) _ _ e in
      let (c, f) = feature_letters-injective _ _ _ _ features in
      record {
        same_self = ap address self;
        same_tag = ap address tag;
        same_state = state_code-injective d.state d'.state state;
        same_container = c;
        same_device = f;
      }

  status-LooksLike : (d d' : Device I) → LooksLike d d' → status d ≡ status d'
  unfolding status
  status-LooksLike d d' l = cc

  -- The monitor's coroutine hands a text to the adapter in a turn exactly when the device's address,
  -- its tag, its state, or one of the two features has changed since the turn before: two devices
  -- have the same text exactly when these are the same, whatever the numbers are.
  pub monitor_turn-changes :
      (same : Discrete (List ℕ)) (d d' : Device I)
      → (LooksLike d d' → monitor_turn same d' (status d) ≡ (status d, []))
        × (¬ LooksLike d d' → monitor_turn same d' (status d) ≡ (status d', status d' ∷ []))
  unfolding monitor_turn message
  monitor_turn-changes same d d' = (
    λ l. if_pos (same (status d) (status d')) (status-LooksLike d d' l) _ _,
    λ n. if_neg (same (status d) (status d')) (λ e. n (status-injective d d' e)) _ _,
  )
