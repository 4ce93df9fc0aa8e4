-- ===== src/Transfer/Endpoint.antt =====
-- include/co_usb/transfer/endpoint.hpp. An address is a `uint8_t`; a device handle is an address.
-- The header's `in` is `inward` here, since `in` is a reserved word.
pub mod Laws
mod Tests
use Prim.Native.Nat.{bit_and, bit_or}
use co_usb.Prelude.{ℕ, ◌-◌, Bool, not, Option, none, some, ◌==◌, if◌then◌else◌}
use co_usb.Libusb.{endpoint_in}

pub data Direction : Type 0 where
  out inward any : Direction

pub record Endpoint (d : Direction) : Type 0 where
  pub devh : ℕ
  pub addr : ℕ

-- `static_cast<uint8_t>(~x)`.
abbrev pub not_byte : ℕ → ℕ
not_byte x = 255 - x

-- `ep & LIBUSB_ENDPOINT_IN` as a condition.
abbrev pub has_in_bit : ℕ → Bool
has_in_bit ep = not (bit_and ep endpoint_in == 0)

-- What the source's `requires` clauses ask of a direction.
abbrev pub IsConcrete : Direction → Type 0
IsConcrete any = ⊥
IsConcrete _ = Unit {0}

unfoldable pub make_safe : (d : Direction) → IsConcrete d → ℕ → ℕ → Endpoint d
make_safe out _ ep devh = record { devh = devh; addr = bit_and ep (not_byte endpoint_in) }
make_safe inward _ ep devh = record { devh = devh; addr = bit_or ep endpoint_in }
make_safe any _ ep devh = record { devh = devh; addr = ep }

unfoldable pub make_unsafe : (d : Direction) → ℕ → ℕ → Endpoint d
make_unsafe d ep devh = record { devh = devh; addr = ep }

-- `std::invalid_argument`, with its two texts.
pub data InvalidArgument : Type 0 where
  in_for_out out_for_in : InvalidArgument

pub data Throwing (A : Type 0) : Type 0 where
  returned : A → Throwing A
  thrown : InvalidArgument → Throwing A

unfoldable pub make_throwing : (d : Direction) → IsConcrete d → ℕ → ℕ → Throwing (Endpoint d)
make_throwing out _ ep devh =
    if has_in_bit ep then thrown in_for_out else returned (record { devh = devh; addr = ep })
make_throwing inward _ ep devh =
    if not (has_in_bit ep) then thrown out_for_in else returned (record { devh = devh; addr = ep })
make_throwing any _ ep devh = returned (record { devh = devh; addr = ep })

-- `as<ToDirection>` of an `any` endpoint.
unfoldable pub as_direction : (d : Direction) → IsConcrete d → Endpoint any → Option (Endpoint d)
unfolding make_unsafe
as_direction inward _ e =
    if has_in_bit e.addr then some (make_unsafe inward e.addr e.devh) else none
as_direction out _ e = if has_in_bit e.addr then none else some (make_unsafe out e.addr e.devh)
as_direction any _ e = none

unfoldable pub ep_out : ℕ → ℕ → Endpoint out
unfolding make_safe
ep_out ep_addr devh = make_safe out tt ep_addr devh

unfoldable pub ep_in : ℕ → ℕ → Endpoint inward
unfolding make_safe
ep_in ep_addr devh = make_safe inward tt ep_addr devh

unfoldable pub ep_any : ℕ → ℕ → Endpoint any
unfolding make_unsafe
ep_any ep_addr devh = make_unsafe any ep_addr devh
