-- ===== src/Libusb.antt =====
-- Numbers that libusb.h documents and the library compares with. Of libusb's functions nothing is
-- defined: their results are arguments of the definitions that call them.
use co_usb.Prelude.{ℕ}
use co_usb.Prelude.Int.{ℤ, pos, negsuc}

-- LIBUSB_SUCCESS, and LIBUSB_ENDPOINT_IN.
abbrev pub success : ℤ
success = pos 0

abbrev pub endpoint_in : ℕ
endpoint_in = 0x80

-- LIBUSB_HOTPLUG_MATCH_ANY.
abbrev pub match_any : ℤ
match_any = negsuc 0
