-- ===== src/Tests/Numbers.antt =====
-- Wrapped numbers, ranges and byte orders.
use cpp_grcp_testground.Prelude.{◌≡◌, ◌<◌, ◌^◌, ◌+◌, ◌-◌, ◌%◌, refl, some, List, arith, inl}
use cpp_grcp_testground.Util.WrapAround.{Limits, construct, increment}
use cpp_grcp_testground.Util.WrapAround.Cycle.{
  IsInterval, IsWithin, stored-IsWithin, increments, increments-mod, increment_sticks,
}
use cpp_grcp_testground.Util.Sequence.{visit}
use cpp_grcp_testground.Util.Sequence.Walk.{visit-numbers, distance}
use cpp_grcp_testground.Net.IPv4Address.{IPv4Address, to_int}
use cpp_grcp_testground.Net.IPv4Address.Order.{address_steps, address_counts}
use cpp_grcp_testground.Tests.Data.{host, own, host-IsValid, own-IsValid}

-- `WrapAround<std::uint8_t, 10, 20>`, and the one with the type's own upper limit.
abbrev ten_to_twenty : Limits
ten_to_twenty = record { min_value = 10; max_value = 20; top = 255 }

abbrev from_ten : Limits
from_ten = record { min_value = 10; max_value = 255; top = 255 }

ten_to_twenty-IsInterval : IsInterval ten_to_twenty
ten_to_twenty-IsInterval = record { ordered = omega arith; in_type = omega arith }

from_ten-IsInterval : IsInterval from_ten
from_ten-IsInterval = record { ordered = omega arith; in_type = omega arith }

stored-IsWithin_example : IsWithin ten_to_twenty (construct ten_to_twenty 99)
stored-IsWithin_example =
    (stored-IsWithin ten_to_twenty 99 20 ten_to_twenty-IsInterval (omega arith)
      (omega arith, omega arith)).1

increments-mod_example : increments ten_to_twenty 12 19 ≡ 10 + (19 - 10 + 12) % (20 - 10 + 1)
increments-mod_example =
    increments-mod ten_to_twenty 12 19 ten_to_twenty-IsInterval (omega arith, omega arith)
      (inl (omega arith))

increment_sticks_example : increment from_ten 255 ≡ 255
increment_sticks_example = increment_sticks from_ten from_ten-IsInterval (omega arith) refl

few : distance (2 ^ 32) (to_int host) (to_int own) < 9
unfolding to_int
few = omega arith

visit-numbers_example : (ips : List IPv4Address) × (visit address_steps 9 host own ≡ some ips)
visit-numbers_example =
    let r = visit-numbers address_steps address_counts 9 host own host-IsValid own-IsValid (few) in
    (r.0, r.1)
