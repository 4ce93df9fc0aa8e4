-- ===== src/Hotplug/Flags.antt =====
-- include/co_usb/detail/flag_type.hpp and include/co_usb/hotplug/flags.hpp. The storage is 32 bits wide.
use Prim.Native.Nat.{bit_and, bit_or, bit_xor}
use co_usb.Prelude.{ℕ, ◌-◌, Bool, not, ◌==◌}
use co_usb.Prelude.Words.{int_mod}

pub record FlagType : Type 0 where
  pub bits : ℕ

unfoldable pub flag_not : FlagType → FlagType
flag_not f = record { bits = int_mod - 1 - f.bits }

unfoldable pub flag_and : FlagType → FlagType → FlagType
flag_and a b = record { bits = bit_and a.bits b.bits }

unfoldable pub flag_or : FlagType → FlagType → FlagType
flag_or a b = record { bits = bit_or a.bits b.bits }

unfoldable pub flag_xor : FlagType → FlagType → FlagType
flag_xor a b = record { bits = bit_xor a.bits b.bits }

-- The operators that assign, as what `*this` is after them.
unfoldable pub assign_and : FlagType → FlagType → FlagType
assign_and self other = record self { bits = bit_and self.bits other.bits }

unfoldable pub assign_or : FlagType → FlagType → FlagType
assign_or self other = record self { bits = bit_or self.bits other.bits }

unfoldable pub assign_xor : FlagType → FlagType → FlagType
assign_xor self other = record self { bits = bit_xor self.bits other.bits }

unfoldable pub flag_eq : FlagType → FlagType → Bool
flag_eq a b = a.bits == b.bits

unfoldable pub flag_ne : FlagType → FlagType → Bool
flag_ne a b = not (a.bits == b.bits)

-- The named values, with the numbers of libusb.h.
abbrev pub event_arrived : FlagType
event_arrived = record { bits = 1 }

abbrev pub event_left : FlagType
event_left = record { bits = 2 }

abbrev pub no_flags : FlagType
no_flags = record { bits = 0 }

abbrev pub enumerate_flag : FlagType
enumerate_flag = record { bits = 1 }
