-- ===== src/Device/Addressing.antt =====
-- Which messages a device takes for its own, on `IsToSelf` and `GetSelfId` of
-- lib/bus/include/robobus/network/device/device.hpp.
use robobus.Base.{ℕ, ◌≡◌, ◌≢◌, ◌↔◌, ◌⊎◌, true, arith}
use robobus.Wire.{broadcast, get_source, get_destination}
use robobus.Device.{Device, is_to_self}

-- A device takes a message exactly when it did not come from its own address, and its destination
-- is the broadcast address, its own address or its advertisement tag.
pub is_to_self_iff :
    {I : Type 0} (raw : ℕ) (d : Device I)
    → (is_to_self raw d ≡ true) ↔ (
        (get_source raw ≢ d.self)
        × ((get_destination raw ≡ broadcast)
            ⊎ (get_destination raw ≡ d.self)
            ⊎ (get_destination raw ≡ d.advertise_tag)))
unfolding is_to_self
is_to_self_iff raw d = ground arith
