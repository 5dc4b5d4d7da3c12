-- ===== src/Wire/Tests.antt =====
-- Runs of the identifier functions at single inputs.
use robobus.Base.{◌^◌, ◌<◌, ◌≡◌, refl, arith}
use robobus.Wire.{address, from_parts}
use robobus.Wire.Parts.{HasParts, from_parts-HasParts}

from_parts_run : from_parts (address 0x81) (address 1) 5 ≡ 0x0181_0105
unfolding from_parts
from_parts_run = refl

from_parts-HasParts_example :
    HasParts (from_parts (address 0x81) (address 1) 5) (address 0x81) (address 1) 5
    × (from_parts (address 0x81) (address 1) 5 < 2 ^ 25)
from_parts-HasParts_example =
    from_parts-HasParts (address 0x81) (address 1) 5 (omega arith) (omega arith) (omega arith)
