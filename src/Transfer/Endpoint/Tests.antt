-- ===== src/Transfer/Endpoint/Tests.antt =====
-- The cases of tests/00-endpoint.cpp, and the endpoint laws at concrete addresses.
use co_usb.Prelude.{◌%◌, ◌≡◌, ◌<◌, ◌↔◌, refl, some, arith}
use co_usb.Transfer.Endpoint.{
  out, inward, has_in_bit, make_safe, make_throwing, returned, as_direction, ep_any, Endpoint,
}
use co_usb.Transfer.Endpoint.Laws.{make_safe_lem, as-make_throwing, wants_in}

safe_in : (make_safe inward tt 0x01 0).addr ≡ 0x81
unfolding make_safe
safe_in = refl

safe_out : (make_safe out tt 0x81 0).addr ≡ 0x01
unfolding make_safe
safe_out = refl

abbrev in_3 : Endpoint inward
in_3 = record { devh = 5; addr = 0x83 }

make_safe_lem_example :
    ((make_safe inward tt 0x03 5).addr % 128 ≡ 0x03 % 128)
    × (has_in_bit (make_safe inward tt 0x03 5).addr ≡ wants_in inward)
    × ((make_safe inward tt 0x03 5).addr < 256)
    × ((make_safe inward tt 0x03 5).devh ≡ 5)
    × (make_safe inward tt (make_safe inward tt 0x03 5).addr 5 ≡ make_safe inward tt 0x03 5)
make_safe_lem_example = make_safe_lem inward tt 0x03 5 (omega arith)

as-make_throwing_example :
    (as_direction inward tt (ep_any 0x83 5) ≡ some in_3)
    ↔ (make_throwing inward tt 0x83 5 ≡ returned in_3)
as-make_throwing_example = as-make_throwing inward tt 0x83 5 in_3
