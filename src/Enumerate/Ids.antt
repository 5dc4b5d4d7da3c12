-- ===== src/Enumerate/Ids.antt =====
-- The addresses that `DeviceIDManager` of lib/bus/include/robobus/network/device_id_manager.hpp gives
-- out one after another.
use robobus.Base.{ℕ, zero, suc, ◌+◌, ◌%◌, ◌<◌, ◌≡◌, ◌≢◌, refl, ap, arith}
use robobus.Wire.{Address, address, broadcast, root}
use robobus.Enumerate.State.{get_available_device_id}

-- The state of the manager after `n` calls, and what the call after them returns.
unfoldable pub after_calls : ℕ → Address
after_calls zero = address 2
after_calls (suc n) = (get_available_device_id (after_calls n)).1

abbrev pub device_id : ℕ → Address
device_id n = (get_available_device_id (after_calls n)).0

after_calls-id : (n : ℕ) → (after_calls n).id ≡ (2 + n) % 256
unfolding after_calls get_available_device_id
after_calls-id zero = refl
after_calls-id (suc n) = omega (arith, after_calls-id n)

device_id-id : (n : ℕ) → (device_id n).id ≡ (2 + n) % 256
unfolding get_available_device_id
device_id-id n = after_calls-id n

-- The first 253 addresses lie strictly between the root's and the broadcast address, and no two of
-- them are the same.
pub device_id-distinct :
    (n m : ℕ)
    → n < 253
    → m < 253
    → n ≢ m
    → (root.id < (device_id n).id) × ((device_id n).id < broadcast.id) × (device_id n ≢ device_id m)
device_id-distinct n m hn hm ne = (
  omega (arith, device_id-id n),
  omega (arith, device_id-id n),
  λ e. omega (arith, device_id-id n, device_id-id m, ap (λ (a : Address). a.id) e),
)

-- The 254 th address is the broadcast address, then come 0 and the root's own address, and from
-- there on every address is given out again.
pub device_id-exhausted :
    (n : ℕ)
    → (device_id 253 ≡ broadcast)
      × (device_id 254 ≡ address 0)
      × (device_id 255 ≡ root)
      × (device_id (n + 256) ≡ device_id n)
device_id-exhausted n = (
  ap address (device_id-id 253),
  ap address (device_id-id 254),
  ap address (device_id-id 255),
  ap address (omega (arith, device_id-id n, device_id-id (n + 256))),
)
